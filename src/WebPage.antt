-- ===== src/WebPage.antt =====
-- web/webpage.cpp, web/webpage.h and web/errorpage.cpp: the elements of a page, a page, and the page
-- of an error. `numtostr` prints a double through the C++ stream and is a parameter where it is used.
use air_sane.Prelude.{ℕ, ◌==◌, ◌&&◌, not, if◌then◌else◌, List, [], ◌∷◌, ◌++◌, null}
use air_sane.Text.{Bytes, codes, equal}
use air_sane.Dictionary.{Storage, assign, get_string}
use air_sane.Sane.{Run, ok}
use air_sane.Http.{Response, set_header, send_with_content, status_reason}
use air_sane.Http.Request.{Message, print_request}

abbrev pub html_escape_byte : ℕ → Bytes
html_escape_byte c =
    if c == b'&'
    then codes "&amp;"
    else if c == b'<'
    then codes "&lt;"
    else if c == b'>'
    then codes "&gt;"
    else if c == b'\''
    then codes "&apos;"
    else if c == b'"'
    then codes "&quot;"
    else if c == b'\n'
    then codes "<br>\n"
    else c ∷ []

unfoldable pub html_escape : Bytes → Bytes
html_escape [] = []
html_escape (c ∷ s) = html_escape_byte c ++ html_escape s

pub record Element : Type 0 where
  pub attributes : Storage
  pub tag : Bytes
  pub text : Bytes

unfoldable pub new_element : Bytes → Element
new_element tag = record { attributes = []; tag = tag; text = [] }

unfoldable pub set_attribute : Bytes → Bytes → Element → Element
set_attribute key value e = record e { attributes = assign e.attributes key value }

unfoldable pub add_content : Bytes → Element → Element
add_content s e = record e { text = e.text ++ s }

unfoldable pub add_text : Bytes → Element → Element
unfolding add_content html_escape
add_text s e = add_content (html_escape s) e

-- The attributes with a function that is applied to the values.
abbrev pub attribute_text : (Bytes → Bytes) → Storage → Bytes
attribute_text f [] = []
attribute_text f ((k, v) ∷ m) = b' ' ∷ (k ++ (codes "='" ++ (f v ++ (b'\'' ∷ attribute_text f m))))

unfoldable pub to_string : Element → Bytes
unfolding html_escape
to_string e =
    b'<'
    ∷ (e.tag
        ++ (attribute_text html_escape e.attributes
            ++ (b'>'
                ∷ (if null e.text then [] else e.text ++ (codes "</" ++ (e.tag ++ codes ">"))))))

-- `br` and `paragraph` end with a line feed.
unfoldable pub line_to_string : Element → Bytes
unfolding to_string
line_to_string e = to_string e ++ b'\n' ∷ []

abbrev pub heading : Bytes → Element
heading level = new_element (b'h' ∷ level)

abbrev pub paragraph : Element
paragraph = new_element (codes "p")

unfoldable pub add_item : Bytes → Element → Element
unfolding add_content
add_item s e = add_content (codes "<li>" ++ (s ++ codes "</li>")) e

abbrev pub anchor : Bytes → Element
anchor href = set_attribute (codes "href") href (new_element (codes "a"))

-- A form field is an element with a label.
unfoldable pub label_html : Bytes → Element → Bytes
label_html label e =
    let name = get_string e.attributes (codes "name") in
    if null label
    then []
    else codes "<label for='"
      ++ (name
          ++ (codes "'>"
              ++ ((if equal label (codes "*") then name else label) ++ codes "</label>\n")))

unfoldable pub field_to_string : Bytes → Element → Bytes
unfolding label_html to_string
field_to_string label e = label_html label e ++ to_string e

-- The options of a selection, by their values.
unfoldable pub add_option : Bytes → Bytes → Storage → Storage
add_option value text options = assign options value (if null text then value else text)

unfoldable pub add_options : List Bytes → Storage → Storage
unfolding add_option
add_options [] options = options
add_options (value ∷ values) options = add_options values (add_option value [] options)

-- The value of the last attribute that is called so.
abbrev pub selected_value : Storage → Bytes → Bytes
selected_value [] value = value
selected_value ((k, v) ∷ m) value = selected_value m (if equal k (codes "value") then v else value)

abbrev pub select_attributes : Storage → Bytes
select_attributes [] = []
select_attributes ((k, v) ∷ m) =
    let rest = select_attributes m in
    if equal k (codes "value") then rest else b' ' ∷ (k ++ (codes "='" ++ (v ++ (b'\'' ∷ rest))))

abbrev pub option_lines : Bytes → Storage → Bytes
option_lines value [] = []
option_lines value ((k, v) ∷ m) =
    codes "<option value='"
    ++ (k
        ++ (b'\''
            ∷ ((if equal k value then codes " selected" else [])
                ++ (b'>' ∷ (v ++ (codes "</option>\n" ++ option_lines value m))))))

unfoldable pub select_to_string : Bytes → Storage → Element → Bytes
unfolding label_html
select_to_string label options e =
    label_html label e
    ++ (codes "<select autocomplete='off'"
        ++ (select_attributes e.attributes
            ++ (codes ">\n"
                ++ (option_lines (selected_value e.attributes []) options ++ codes "</select>\n"))))

pub record WebPage : Type 0 where
  pub title : Bytes
  pub style : Bytes
  pub favicon_type : Bytes
  pub favicon_url : Bytes

unfoldable pub add_style : Bytes → WebPage → WebPage
add_style s p = record p { style = p.style ++ (s ++ b'\n' ∷ []) }

unfoldable pub new_page : WebPage
unfolding add_style
new_page =
    add_style (codes "body { font-family:sans-serif }")
      (record { title = []; style = []; favicon_type = []; favicon_url = [] })

unfoldable pub set_favicon : Bytes → Bytes → WebPage → WebPage
set_favicon type url p = record p { favicon_type = type; favicon_url = url }

unfoldable pub clear_favicon : WebPage → WebPage
clear_favicon p = record p { favicon_type = []; favicon_url = [] }

unfoldable pub clear_style : WebPage → WebPage
clear_style p = record p { style = [] }

-- The document around what `onRender` has written.
unfoldable pub page_html : WebPage → Bytes → Bytes
unfolding html_escape
page_html p body =
    codes "<!DOCTYPE HTML>\n<html>\n<head>\n<meta charset='utf-8'/>\n<title>"
    ++ html_escape p.title
    ++ codes "</title>\n<style>"
    ++ p.style
    ++ codes "</style>\n"
    ++ (if not (null p.favicon_type) && not (null p.favicon_url)
        then codes "<link rel='icon' type='"
          ++ p.favicon_type
          ++ codes "' href='"
          ++ p.favicon_url
          ++ codes "'>\n"
        else [])
    ++ codes "</head>\n<body>\n"
    ++ body
    ++ codes "</body>\n</html>\n"

-- The page of an error, and what it shows of the request.
unfoldable pub error_page : (ℕ → Bytes) → ℕ → WebPage
error_page show n = record new_page {
  title = codes "Error " ++ (show n ++ (codes ": " ++ status_reason n));
}

unfoldable pub error_body : (ℕ → Bytes) → WebPage → Message → Bytes
unfolding add_text to_string line_to_string print_request
error_body show p m =
    to_string (add_text p.title (heading (show 1)))
    ++ codes "\n"
    ++ line_to_string (add_text (codes "when processing request: ") paragraph)
    ++ codes "\n"
    ++ line_to_string (add_text (print_request m) paragraph)

module _ {S : Type 0} (show : ℕ → Bytes) (write : Bytes → S → S) where
  -- `render` of a page whose `onRender` has written `body` and left the response `r`.
  unfoldable pub render : WebPage → Bytes → Response S → Run (Response S)
  unfolding page_html
  render p body r =
      if r.sent
      then ok r
      else send_with_content show write (page_html p body)
          (set_header (codes "content-type") (codes "text/html") r)

  unfoldable pub render_error : ℕ → Message → Response S → Run (Response S)
  unfolding render error_page error_body
  render_error n m r = let p = error_page show n in render p (error_body show p m) r
