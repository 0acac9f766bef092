-- ===== src/Firmware/Thresholds.antt =====
-- What fwVersion says after fw_version_check of kfmon.c.
use kfmon.Prelude.{
  ℕ, ◌≡◌, ◌≢◌, refl, sym, ap, ◌∙◌, Bool, true, false, Option, none, some, [], ◌∷◌, ◌++◌, CString,
  codes, All, leb, arith, Bool-cases, inl, inr,
}
use mathlib.Core.List.{append-nil}
use kfmon.Firmware.{
  AtLeast, version, strip_lf, until_nul, split_comma, strsep, firmware_field, classify,
  fw_version_check,
}

-- What the manual says of strverscmp, as far as it is used: it orders its arguments, and version numbers
-- by their parts.
pub record IsVersionOrder (at_least : AtLeast) : Type 0 where
  pub transitive :
      (a b c : CString) → at_least a b ≡ true → at_least b c ≡ true → at_least a c ≡ true
  pub five : at_least (codes "5.0.111111") (codes "4.29.18730") ≡ true
  pub five_six : at_least (codes "5.6.209315") (codes "5.0.111111") ≡ true

-- No comma, NUL or line feed.
abbrev pub IsField : CString → Type 0
IsField = All (λ c. (c ≢ b',') × (c ≢ 0) × (c ≢ 10))

split_comma-field :
    (field rest : CString) → IsField field → split_comma (field ++ b',' ∷ rest) ≡ (field, some rest)
unfolding split_comma
split_comma-field [] rest h = refl
split_comma-field (c ∷ field) rest h = ground (arith, split_comma-field field rest h.1, h.0)

split_comma-whole : (field : CString) → IsField field → split_comma field ≡ (field, none)
unfolding split_comma
split_comma-whole [] h = refl
split_comma-whole (c ∷ field) h = ground (arith, split_comma-whole field h.1, h.0)

until_nul-whole : (field : CString) → IsField field → until_nul field ≡ field
unfolding until_nul
until_nul-whole [] h = refl
until_nul-whole (c ∷ field) h = ground (arith, until_nul-whole field h.1, h.0)

strip_lf-whole : (field : CString) → IsField field → strip_lf field ≡ field
unfolding strip_lf
strip_lf-whole [] h = refl
strip_lf-whole (c ∷ []) h = ground (arith, h.0)
strip_lf-whole (c ∷ d ∷ field) h = ap (λ (t : CString). c ∷ t) (strip_lf-whole (d ∷ field) h.1)

strip_lf-last : (s : CString) → strip_lf (s ++ 10 ∷ []) ≡ s
unfolding strip_lf
strip_lf-last [] = refl
strip_lf-last (c ∷ []) = refl
strip_lf-last (c ∷ d ∷ s) = ap (λ (t : CString). c ∷ t) (strip_lf-last (d ∷ s))

-- A cut behind a field and its comma.
until_nul-field :
    (field rest : CString)
    → IsField field
    → until_nul (field ++ b',' ∷ rest) ≡ field ++ b',' ∷ until_nul rest
unfolding until_nul
until_nul-field [] rest h = refl
until_nul-field (c ∷ field) rest h = ground (arith, until_nul-field field rest h.1, h.0)

strip_lf-comma : (s : CString) → strip_lf (b',' ∷ s) ≡ b',' ∷ strip_lf s
unfolding strip_lf
strip_lf-comma [] = refl
strip_lf-comma (c ∷ s) = refl

strip_lf-field : (field s : CString) → strip_lf (field ++ b',' ∷ s) ≡ field ++ strip_lf (b',' ∷ s)
unfolding strip_lf
strip_lf-field [] s = refl
strip_lf-field (c ∷ []) s = refl
strip_lf-field (c ∷ d ∷ field) s = ap (λ (t : CString). c ∷ t) (strip_lf-field (d ∷ field) s)

strsep-field :
    (field rest : CString)
    → IsField field
    → strsep (some (field ++ b',' ∷ rest)) ≡ (some field, some rest)
unfolding strsep
strsep-field field rest h =
    ap (λ (p : CString × Option CString). (some p.0, p.1)) (split_comma-field field rest h)

check-some :
    (at_least : AtLeast) (field s : CString)
    → fw_version_check at_least (some (field ++ b',' ∷ s))
      ≡ classify at_least (firmware_field (until_nul (strip_lf (field ++ b',' ∷ s))))
unfolding fw_version_check
check-some at_least [] s = refl
check-some at_least (c ∷ field) s = refl

modus_tollens : {a b : Bool} → (a ≡ true → b ≡ true) → b ≡ false → a ≡ false
modus_tollens {a} {b} h e = elim (Bool-cases a) [ inl p ↦ absurd (ground (arith, h p)) | inr p ↦ p ]

classify-thresholds :
    (at_least : AtLeast) (fw : CString)
    → IsVersionOrder at_least
    → (v : ℕ) × (classify at_least (some fw) ≡ version (at_least fw (codes "4.29.18730")) v)
      × (leb 42 v ≡ at_least fw (codes "4.29.18730"))
      × (leb 50 v ≡ at_least fw (codes "5.0.111111"))
      × (leb 56 v ≡ at_least fw (codes "5.6.209315"))
unfolding classify
classify-thresholds at_least fw o =
    let four = codes "4.29.18730" in
    let five = codes "5.0.111111" in
    let six = codes "5.6.209315" in
    let down = o.transitive fw six five in
    let down1 = o.transitive fw five four in
    elim (Bool-cases (at_least fw four)) [
      | inl a ↦ elim (Bool-cases (at_least fw five)) [
        | inl b ↦ elim (Bool-cases (at_least fw six)) [
          | inl c ↦ (56, rw (a, b, c) refl, sym a, sym b, sym c)
          | inr c ↦ (50, rw (a, b, c) refl, sym a, sym b, sym c)
        ]
        | inr b ↦ (42, rw (a, b) refl, sym a, sym b, sym (modus_tollens (λ e. down e o.five_six) b))
      ]
      | inr a ↦
          let below_five : at_least fw five ≡ false = modus_tollens (λ e. down1 e o.five) a in
          let below_six : at_least fw six ≡ false =
            modus_tollens (λ e. down e o.five_six) below_five in
          (40, rw (a, below_five) refl, sym a, sym below_five, sym below_six)
    ]

-- What follows the third field: nothing, the line feed that ends the file, or a comma and anything.
pub data Ending : Type 0 where
  nothing line_feed : Ending
  more : CString → Ending

abbrev pub text_of : Ending → CString
text_of nothing = []
text_of line_feed = 10 ∷ []
text_of (more rest) = b',' ∷ rest

strsep-end :
    (fw : CString) (end : Ending)
    → IsField fw
    → (strsep (some (until_nul (strip_lf (fw ++ text_of end))))).0 ≡ some fw
unfolding strsep
strsep-end fw nothing h =
    rw (append-nil fw, strip_lf-whole fw h, until_nul-whole fw h, split_comma-whole fw h) refl
strsep-end fw line_feed h = rw (strip_lf-last fw, until_nul-whole fw h, split_comma-whole fw h) refl
strsep-end fw (more rest) h =
    rw
      (
        strip_lf-field fw rest,
        strip_lf-comma rest,
        until_nul-field fw (strip_lf rest) h,
        split_comma-field fw (until_nul (strip_lf rest)) h,
      )
      refl

module _ (sn kv : CString) where
  -- A tag with a serial number, a kernel's version and the rest.
  abbrev tag : CString → CString
  tag rest = sn ++ b',' ∷ (kv ++ b',' ∷ rest)

  strip_lf-tag : (rest : CString) → strip_lf (tag rest) ≡ tag (strip_lf rest)
  strip_lf-tag rest =
      strip_lf-field sn (kv ++ b',' ∷ rest)
      ∙ ap (λ (x : CString). sn ++ x)
          (strip_lf-comma (kv ++ b',' ∷ rest)
            ∙ ap (λ (x : CString). b',' ∷ x)
                (strip_lf-field kv rest ∙ ap (λ (x : CString). kv ++ x) (strip_lf-comma rest)))

  module _ (h1 : IsField sn) (h2 : IsField kv) where
    until_nul-tag : (rest : CString) → until_nul (tag rest) ≡ tag (until_nul rest)
    until_nul-tag rest =
        until_nul-field sn (kv ++ b',' ∷ rest) h1
        ∙ ap (λ (x : CString). sn ++ b',' ∷ x) (until_nul-field kv rest h2)

    firmware_field-tag : (rest : CString) → firmware_field (tag rest) ≡ (strsep (some rest)).0
    unfolding firmware_field
    firmware_field-tag rest =
        ap (λ (p : Option CString × Option CString). (strsep (strsep p.1).1).0)
          (strsep-field sn (kv ++ b',' ∷ rest) h1)
        ∙ ap (λ (p : Option CString × Option CString). (strsep p.1).0) (strsep-field kv rest h2)

    -- With any order of versions as the manual describes it: a tag whose first three fields hold no comma, NUL
    -- or line feed, and that ends behind them, or has a line feed there and ends, or a comma and then anything,
    -- is classified by the third. It is found good exactly from 4.29.18730 on, and fwVersion is at least 42,
    -- 50 or 56 exactly if the firmware is at least 4.29.18730, 5.0.111111 or 5.6.209315.
    pub fw_version_check-thresholds :
        (at_least : AtLeast) (fw : CString) (end : Ending)
        → IsField fw
        → IsVersionOrder at_least
        → (v : ℕ) × (fw_version_check at_least
              (some (sn ++ b',' ∷ (kv ++ b',' ∷ (fw ++ text_of end))))
            ≡ version (at_least fw (codes "4.29.18730")) v)
          × (leb 42 v ≡ at_least fw (codes "4.29.18730"))
          × (leb 50 v ≡ at_least fw (codes "5.0.111111"))
          × (leb 56 v ≡ at_least fw (codes "5.6.209315"))
    fw_version_check-thresholds at_least fw end h3 o =
        let rest = fw ++ text_of end in
        let field : firmware_field (until_nul (strip_lf (tag rest))) ≡ some fw =
          ap (λ (x : CString). firmware_field (until_nul x)) (strip_lf-tag rest)
          ∙ ap firmware_field (until_nul-tag (strip_lf rest))
          ∙ firmware_field-tag (until_nul (strip_lf rest))
          ∙ strsep-end fw end h3 in
        let (v, f, four, five, six) = classify-thresholds at_least fw o in
        (
          v,
          check-some at_least sn (kv ++ b',' ∷ rest) ∙ ap (classify at_least) field ∙ f,
          four,
          five,
          six,
        )
