-- ===== src/Tests/Encoder.antt =====
-- The base class of the encoders: imageformats/imageencoder.cpp.
use air_sane.Prelude.{◌+◌, ◌-◌, ◌*◌, ◌≡◌, refl, List, [], ◌∷◌, ◌++◌, true, arith}
use air_sane.Prelude.Int.{pos}
use air_sane.Text.{Bytes}
use air_sane.ImageEncoder.{
  ImageEncoder, done, ◌>>=◌, grayscale, components_of, write_line, write_lines, end_document,
  lines_left_in_current_image,
}
use air_sane.ImageEncoder.Position.{IsAt, write_lines-position}
use air_sane.ImageEncoder.Sizes.{IsSized}
use air_sane.ImageEncoder.Trace.{
  Event, document_begin, image_begin, line, document_end, recorder, page_events, pages_events,
  all_lines, end_document-write_lines,
}

-- Two lines of one gray byte.
abbrev pub two_lines : ImageEncoder
two_lines = record {
  width = 1;
  height = pos 2;
  bit_depth = 8;
  dpi = 300;
  orientation_degrees = pos 0;
  components = 1;
  bytes_per_line = 1;
  colorspace = grayscale;
  destination = true;
  current_line = 0;
  current_image = 0;
}

abbrev page : List Bytes
page = (1 ∷ []) ∷ (2 ∷ []) ∷ []

abbrev three : List Bytes
three = (1 ∷ []) ∷ (2 ∷ []) ∷ (3 ∷ []) ∷ []

abbrev after_three : ImageEncoder × List Event
after_three = (
  record two_lines { current_line = 1; current_image = 1 },
  document_begin ∷ (page_events page ++ image_begin ∷ line (3 ∷ []) ∷ []),
)

write_lines-three : write_lines recorder three (two_lines, []) ≡ done after_three
unfolding write_lines write_line
write_lines-three = refl

two_lines-IsAt : IsAt 2 two_lines
two_lines-IsAt = record { rows_are = refl; inside = omega arith }

write_lines-position_example :
    IsAt 2 after_three.0
    × (after_three.0.current_image * 2 + after_three.0.current_line ≡ 3)
    × (lines_left_in_current_image after_three.0 ≡ pos (2 - after_three.0.current_line))
write_lines-position_example =
    write_lines-position recorder 2 three two_lines [] two_lines-IsAt write_lines-three

two_lines-IsSized : IsSized two_lines
unfolding components_of
two_lines-IsSized = refl

end_document-write_lines_example :
    (write_lines recorder (all_lines (page ∷ page ∷ [])) (two_lines, []) >>= end_document recorder)
    ≡ done (
      record two_lines { current_line = 0; current_image = 2 },
      [] ++ (document_begin ∷ (pages_events (page ∷ page ∷ []) ++ document_end ∷ [])),
    )
end_document-write_lines_example =
    end_document-write_lines page (page ∷ []) two_lines [] 2 refl refl refl refl (omega arith)
      (refl, (refl, tt))
