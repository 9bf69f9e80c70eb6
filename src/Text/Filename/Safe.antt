-- ===== src/Text/Filename/Safe.antt =====
-- What `sanitiseExtractedFilename` lets through is a name of one file, whatever the name that it is
-- given.
use libcdoc.Base.{
  ℕ, zero, suc, ◌-◌, ◌≤◌, ◌<◌, min, Bytes, codes, All, All-append, All-take, All-drop, length,
  length-append, length-take, length-drop, take, drop, [], ◌∷◌, ◌++◌, true, false, not, ◌&&◌, ◌||◌,
  ltb, ◌==◌, list_eq, ◌≡◌, ◌≢◌, ◌⊎◌, inl, inr, arith, Bool-cases, Option-cases,
}
use libcdoc.Text.Utf8.{is_valid_utf8}
use libcdoc.Text.Filename.{
  has_no_control, last_component, strip_drive, has_byte, trim_end, trim_front, is_reserved,
  boundary_loop, utf8_boundary, find_last_dot, max_bytes, keep_extension, cap, finish, leaf,
  sanitise,
}

-- A tab, or a byte that is no C0 control character; DEL, 0x7F, is such a byte.
abbrev pub NoC0Control : ℕ → Type 0
NoC0Control c = (c ≡ b'\t') ⊎ (0x20 ≤ c)

-- No separator of directories.
abbrev pub InOneDirectory : ℕ → Type 0
InOneDirectory c = (c ≢ b'/') × (c ≢ b'\\')

-- A byte that may stand in the name of one file on every system.
abbrev pub Plain : ℕ → Type 0
Plain c = NoC0Control c × InOneDirectory c × (c ≢ b':')

has_no_control_sound : (s : Bytes) → has_no_control s ≡ true → All NoC0Control s
unfolding has_no_control
has_no_control_sound [] h = tt
has_no_control_sound (c ∷ s) h = (ground arith, has_no_control_sound s (ground arith))

has_byte_sound : (d : ℕ) (s : Bytes) → has_byte d s ≡ false → All (λ c. c ≢ d) s
unfolding has_byte
has_byte_sound d [] h = tt
has_byte_sound d (c ∷ s) h = (ground arith, has_byte_sound d s (ground arith))

last_component-InOneDirectory :
    (s part : Bytes) → All InOneDirectory part → All InOneDirectory (last_component s part)
unfolding last_component
last_component-InOneDirectory [] part h = h
last_component-InOneDirectory (c ∷ s) part h = elim (Bool-cases (c == b'\\' || c == b'/')) [
  | inl yes_sep ↦ rw yes_sep (last_component-InOneDirectory s [] tt)
  | inr no_sep ↦ rw no_sep (
      last_component-InOneDirectory s (part ++ c ∷ [])
        (All-append InOneDirectory part (c ∷ []) h ((ground arith, ground arith), tt)))
]

-- The steps that only leave bytes out keep what holds of every byte.
module _ (P : ℕ → Type 0) where
  last_component-All : (s part : Bytes) → All P s → All P part → All P (last_component s part)
  unfolding last_component
  last_component-All [] part hs hp = hp
  last_component-All (c ∷ s) part hs hp = elim (Bool-cases (c == b'\\' || c == b'/')) [
    | inl yes_sep ↦ rw yes_sep (last_component-All s [] hs.1 tt)
    | inr no_sep ↦
        rw no_sep
          (last_component-All s (part ++ c ∷ []) hs.1 (All-append P part (c ∷ []) hp (hs.0, tt)))
  ]

  strip_drive-All : (s : Bytes) → All P s → All P (strip_drive s)
  unfolding strip_drive
  strip_drive-All [] h = h
  strip_drive-All (a ∷ []) h = h
  strip_drive-All (a ∷ b ∷ s) h = ground arith

  trim_end-All : (s : Bytes) → All P s → All P (trim_end s)
  unfolding trim_end
  trim_end-All [] h = h
  trim_end-All (c ∷ s) h = ground (arith, trim_end-All s h.1)

  trim_front-All : (s : Bytes) → All P s → All P (trim_front s)
  unfolding trim_front
  trim_front-All [] h = h
  trim_front-All (c ∷ s) h = ground (arith, trim_front-All s h.1)

  keep_extension-All : (base : Bytes) (dot : ℕ) → All P base → All P (keep_extension base dot)
  unfolding keep_extension
  keep_extension-All base dot h =
      All-append P _ (drop dot base) (All-take P _ (take dot base) (All-take P dot base h))
        (All-drop P dot base h)

  cap-All : (base : Bytes) → All P base → All P (cap base)
  unfolding cap
  cap-All base h = elim (Bool-cases (ltb max_bytes (length base))) [
    | inr short ↦ rw short h
    | inl long ↦ elim (Option-cases (find_last_dot base)) [
      | inl no_dot ↦ rw (long, no_dot, cap) (All-take P (utf8_boundary base max_bytes) base h)
      | inr (dot, found) ↦ elim (Bool-cases (ltb 0 dot && ltb (length base - dot) 16)) [
        | inl keep ↦ rw (long, found, cap, keep) (keep_extension-All base dot h)
        | inr cut ↦ rw (long, found, cap, cut) (All-take P (utf8_boundary base max_bytes) base h)
      ]
    ]
  ]

  finish-All : (base : Bytes) → All P base → All P (finish base)
  unfolding finish
  finish-All base h = ground (arith, cap-All base h)

boundary_loop-le : (pos : ℕ) (s : Bytes) → boundary_loop pos s ≤ pos
unfolding boundary_loop
boundary_loop-le zero s = omega arith
boundary_loop-le (suc pos) s = ground (arith, boundary_loop-le pos s)

utf8_boundary-le : (s : Bytes) (max_pos : ℕ) → utf8_boundary s max_pos ≤ max_pos
unfolding utf8_boundary
utf8_boundary-le s max_pos = omega (arith, boundary_loop-le (min max_pos (length s)) s)

cap_short : (base : Bytes) → length (take (utf8_boundary base max_bytes) base) ≤ max_bytes
cap_short base =
    omega (arith, length-take (utf8_boundary base max_bytes) base, utf8_boundary-le base max_bytes)

keep_extension_short :
    (base : Bytes) (dot : ℕ) → length base - dot < 16 → length (keep_extension base dot) ≤ max_bytes
unfolding keep_extension
keep_extension_short base dot short =
    let stem = take dot base in
    let keep = utf8_boundary stem (max_bytes - length (drop dot base)) in
    omega (
      arith,
      length-append (take keep stem) (drop dot base),
      length-take keep stem,
      length-drop dot base,
      utf8_boundary-le stem (max_bytes - length (drop dot base)),
    )

length-cap : (base : Bytes) → length (cap base) ≤ max_bytes
unfolding cap
length-cap base = elim (Bool-cases (ltb max_bytes (length base))) [
  | inr short ↦ rw short (ground arith)
  | inl long ↦ elim (Option-cases (find_last_dot base)) [
    | inl no_dot ↦ rw (long, no_dot, cap) (cap_short base)
    | inr (dot, found) ↦ elim (Bool-cases (ltb 0 dot && ltb (length base - dot) 16)) [
      | inl keep ↦ rw (long, found, cap, keep) (keep_extension_short base dot (ground arith))
      | inr cut ↦ rw (long, found, cap, cut) (cap_short base)
    ]
  ]
]

All-both :
    (P Q R : ℕ → Type 0) (s : Bytes) → ((c : ℕ) → P c → Q c → R c) → All P s → All Q s → All R s
All-both P Q R [] both hp hq = tt
All-both P Q R (c ∷ s) both hp hq = (both c hp.0 hq.0, All-both P Q R s both hp.1 hq.1)

-- What the steps give back.
pub record IsLeaf (name : Bytes) : Type 0 where
  pub plain : All Plain name
  pub short : length name ≤ max_bytes

empty-IsLeaf : IsLeaf []
empty-IsLeaf = record { plain = tt; short = omega arith }

finish-IsLeaf : (base : Bytes) → All Plain base → IsLeaf (finish base)
unfolding finish
finish-IsLeaf base h =
    elim (Bool-cases (
      list_eq base []
      || list_eq base (codes ".")
      || list_eq base (codes "..")
      || is_reserved base)) [
        | inl refuse ↦ rw refuse empty-IsLeaf
        | inr take_it ↦
            rw take_it (record { plain = cap-All Plain base h; short = length-cap base })
      ]

leaf-IsLeaf :
    (component : Bytes)
    → All NoC0Control component
    → All InOneDirectory component
    → IsLeaf (leaf component)
unfolding leaf
leaf-IsLeaf component hp hd =
    let base = strip_drive component in
    elim (Bool-cases (has_byte b':' base)) [
      | inl refuse ↦ rw refuse empty-IsLeaf
      | inr no_colon ↦
          let plain : All Plain base =
            All-both (λ c. NoC0Control c × InOneDirectory c) (λ c. c ≢ b':') Plain base
              (λ c ok apart. (ok.0, ok.1, apart))
              (All-both NoC0Control InOneDirectory (λ c. NoC0Control c × InOneDirectory c) base
                (λ c p d. (p, d)) (strip_drive-All NoC0Control component hp)
                (strip_drive-All InOneDirectory component hd))
              (has_byte_sound b':' base no_colon) in
          rw no_colon (
            finish-IsLeaf (trim_front (trim_end base))
              (trim_front-All Plain (trim_end base) (trim_end-All Plain base plain)))
    ]

-- For every name, what the sanitiser gives back has at most 255 bytes and no separator of
-- directories, no colon and no byte below 0x20 other than the tab.
pub sanitise-IsLeaf : (name : Bytes) → IsLeaf (sanitise name)
unfolding sanitise
sanitise-IsLeaf name =
    elim (Bool-cases (list_eq name [] || not (is_valid_utf8 name) || not (has_no_control name))) [
      | inl refuse ↦ rw refuse empty-IsLeaf
      | inr take_it ↦
          let printable : All NoC0Control name = has_no_control_sound name (ground arith) in
          rw take_it (
            leaf-IsLeaf (last_component name [])
              (last_component-All NoC0Control name [] printable tt)
              (last_component-InOneDirectory name [] tt))
    ]
