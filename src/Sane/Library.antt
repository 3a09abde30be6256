-- ===== src/Sane/Library.antt =====
-- sanecpp/sanecpp.cpp: the count of the users of SANE, which initialises it for the first one and
-- ends it behind the last, and the calls that count: `init`, `open` with the deleter of its handle,
-- and `enumerate_devices`. The calls of SANE are kept in a list.
pub mod Counting
use air_sane.Prelude.{ℕ, ◌+◌, ◌-◌, List, [], ◌∷◌, ◌++◌, Option, none, some, ◌==◌, if◌then◌else◌}
use air_sane.Sane.{SaneStatus, Run, ok, crash, ◌>>=◌}
use air_sane.Sane.Session.{is_good}

pub data Call : Type 0 where
  sane_init sane_exit sane_close sane_get_devices : Call
  sane_open : SaneStatus → Call

pub record Library : Type 0 where
  pub refcount : ℕ
  pub calls : List Call

abbrev pub call : Call → Library → Library
call c l = record l { calls = l.calls ++ c ∷ [] }

-- `sane_init_addref`.
unfoldable pub add_ref : Library → Library
add_ref l =
    let counted = record l { refcount = l.refcount + 1 } in
    if counted.refcount == 1 then call sane_init counted else counted

-- `sane_init_release`, with its assertion.
unfoldable pub release : Library → Run Library
release l =
    let counted = record l { refcount = l.refcount - 1 } in
    if l.refcount == 0
    then crash
    else if counted.refcount == 0
    then ok (call sane_exit counted)
    else ok counted

-- `open`, for what sane_open answers. A handle is given out if the status is good.
unfoldable pub open_counted : SaneStatus → Library → Run Library
unfolding add_ref release
open_counted status l =
    let opened = call (sane_open status) (add_ref l) in
    if is_good status then ok opened else release opened

-- The deleter of a handle.
unfoldable pub close_counted : Library → Run Library
unfolding release
close_counted l = release (call sane_close l)

unfoldable pub enumerate_devices : Library → Run Library
unfolding add_ref release
enumerate_devices l = release (call sane_get_devices (add_ref l))

-- What the program does with it: `init` objects come and go, and so do handles.
pub data Use : Type 0 where
  make_init drop_init drop_handle enumerate : Use
  make_handle : SaneStatus → Use

unfoldable pub use_library : Use → Library → Run Library
unfolding add_ref release open_counted close_counted enumerate_devices
use_library make_init l = ok (add_ref l)
use_library drop_init l = release l
use_library (make_handle status) l = open_counted status l
use_library drop_handle l = close_counted l
use_library enumerate l = enumerate_devices l

unfoldable pub use_all : List Use → Library → Run Library
unfolding use_library
use_all [] l = ok l
use_all (u ∷ uses) l = use_library u l >>= use_all uses

abbrev pub fresh_library : Library
fresh_library = record { refcount = 0; calls = [] }

-- How many `init` objects and handles there are.
pub record Holders : Type 0 where
  pub inits : ℕ
  pub handles : ℕ

-- What a use makes of them, if there is what it drops.
abbrev pub held : Use → Holders → Option Holders
held make_init h = some (record h { inits = h.inits + 1 })
held drop_init h = if h.inits == 0 then none else some (record h { inits = h.inits - 1 })
held (make_handle status) h =
    some (if is_good status then record h { handles = h.handles + 1 } else h)
held drop_handle h = if h.handles == 0 then none else some (record h { handles = h.handles - 1 })
held enumerate h = some h

unfoldable pub held_after : List Use → Holders → Option Holders
held_after [] h = some h
held_after (u ∷ uses) h = elim (held u h) [ none ↦ none | some h' ↦ held_after uses h' ]

-- What SANE asks of its callers: nothing but sane_init is called while it is off, it is not
-- initialised twice, and no handle is open when it ends.
pub data Phase : Type 0 where
  off : Phase
  on : ℕ → Phase

abbrev pub next_phase : Phase → Call → Option Phase
next_phase off sane_init = some (on 0)
next_phase off _ = none
next_phase (on n) sane_init = none
next_phase (on n) sane_exit = if n == 0 then some off else none
next_phase (on n) (sane_open status) = some (on (if is_good status then n + 1 else n))
next_phase (on n) sane_close = if n == 0 then none else some (on (n - 1))
next_phase (on n) sane_get_devices = some (on n)

unfoldable pub phase_after : Phase → List Call → Option Phase
phase_after p [] = some p
phase_after p (c ∷ calls) = elim (next_phase p c) [ none ↦ none | some q ↦ phase_after q calls ]

-- Where SANE is, for the holders that there are.
abbrev pub phase_of : Holders → Phase
phase_of h = if h.inits + h.handles == 0 then off else on h.handles
