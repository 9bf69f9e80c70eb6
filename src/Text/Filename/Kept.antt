-- ===== src/Text/Filename/Kept.antt =====
-- The names that `sanitiseExtractedFilename` (cdoc/Utils.cpp) leaves as they are.
use libcdoc.Base.{
  ◌≤◌, Bytes, codes, All, length, [], ◌∷◌, ◌++◌, true, false, ◌||◌, ltb, ◌==◌, list_eq,
  list_eq_sound, append-nil, append_assoc, ◌≡◌, ◌≢◌, refl, sym, ◌∙◌, arith, Bool-cases, inl, inr,
}
use libcdoc.Text.Utf8.{is_valid_utf8}
use libcdoc.Text.Filename.{
  has_no_control, last_component, strip_drive, has_byte, trim_end, trim_front, is_reserved,
  max_bytes, cap, finish, leaf, sanitise,
}
use libcdoc.Text.Filename.Safe.{Plain}

-- A name that no step has to change or refuse.
pub record IsKept (name : Bytes) : Type 0 where
  pub full : name ≢ []
  pub utf8 : is_valid_utf8 name ≡ true
  pub plain : All Plain name
  pub no_end : trim_end name ≡ name
  pub no_front : trim_front name ≡ name
  pub free : is_reserved name ≡ false
  pub short : length name ≤ max_bytes

has_no_control-Plain : (s : Bytes) → All Plain s → has_no_control s ≡ true
unfolding has_no_control
has_no_control-Plain [] h = refl
has_no_control-Plain (c ∷ s) h = ground (arith, has_no_control-Plain s h.1)

last_component-Plain : (s part : Bytes) → All Plain s → last_component s part ≡ part ++ s
unfolding last_component
last_component-Plain [] part h = sym (append-nil part)
last_component-Plain (c ∷ s) part h =
    let no_sep : (c == b'\\' || c == b'/') ≡ false = ground arith in
    rw no_sep (last_component-Plain s (part ++ c ∷ []) h.1 ∙ append_assoc part (c ∷ []) s)

strip_drive-Plain : (s : Bytes) → All Plain s → strip_drive s ≡ s
unfolding strip_drive
strip_drive-Plain [] h = refl
strip_drive-Plain (a ∷ []) h = refl
strip_drive-Plain (a ∷ b ∷ s) h = ground arith

has_colon-Plain : (s : Bytes) → All Plain s → has_byte b':' s ≡ false
unfolding has_byte
has_colon-Plain [] h = refl
has_colon-Plain (c ∷ s) h = ground (arith, has_colon-Plain s h.1)

apart : (s t : Bytes) → s ≢ t → list_eq s t ≡ false
apart s t h = elim (Bool-cases (list_eq s t)) [
  | inl same ↦ absurd (h (list_eq_sound s t same))
  | inr other ↦ other
]

no_dots : (s : Bytes) → trim_end s ≡ s → (s ≢ codes ".") × (s ≢ codes "..")
unfolding trim_end
no_dots s h = (λ e. absurd (cc (rw e at h)), λ e. absurd (cc (rw e at h)))

finish_kept : (name : Bytes) → IsKept name → finish name ≡ name
unfolding finish cap
finish_kept name k =
    let dots = no_dots name k.no_end in
    let fits : ltb max_bytes (length name) ≡ false = ground (arith, k.short) in
    rw (
      apart name [] k.full,
      apart name (codes ".") dots.0,
      apart name (codes "..") dots.1,
      k.free,
      fits,
    )

-- A name of one to 255 bytes of valid UTF-8 with no separator, colon or control character, nothing
-- to trim at its ends and no device name before its first dot is given back as it is.
pub sanitise_kept : (name : Bytes) → IsKept name → sanitise name ≡ name
unfolding sanitise leaf
sanitise_kept name k =
    rw
      (
        apart name [] k.full,
        k.utf8,
        has_no_control-Plain name k.plain,
        last_component-Plain name [] k.plain,
        strip_drive-Plain name k.plain,
        has_colon-Plain name k.plain,
        k.no_end,
        k.no_front,
      )
      (finish_kept name k)
