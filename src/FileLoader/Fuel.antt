-- ===== src/FileLoader/Fuel.antt =====
-- One unit of fuel for each byte is enough for the parse of any file.
use mathlib.Core.Path.{subst}
use jamera_server.Base.{
  ℕ, zero, suc, ◌+◌, ◌-◌, ◌≤◌, ◌≡◌, ◌∙◌, inl, inr, refl, sym, Option, none, some, List, [], ◌∷◌,
  ◌==◌, length, Bool-cases, Option-cases, arith,
}
use jamera_server.FileLoader.{
  node_start, node_end, escape_char, NodeStruct, null, Scan, scan_byte, scan,
}

abbrev Shorter : Option (NodeStruct × ℕ × List ℕ) → List ℕ → Type 0
Shorter none bytes = Unit
Shorter (some (n, p, rest)) bytes = length rest ≤ length bytes

Shorter-le :
    (r : Option (NodeStruct × ℕ × List ℕ)) (xs ys : List ℕ)
    → Shorter r xs
    → length xs ≤ length ys
    → Shorter r ys
Shorter-le none xs ys h le = tt
Shorter-le (some (n, p, rest)) xs ys h le = omega arith

-- A parse leaves no more bytes than it had.
abbrev Shortens : Scan → Type 0
Shortens r =
    (start type : ℕ) (props_size : Option ℕ) (child : NodeStruct) (position : ℕ) (bytes : List ℕ)
    → Shorter (r start type props_size child position bytes) bytes

-- Two parses agree on no more than n bytes.
abbrev Agree : ℕ → Scan → Scan → Type 0
Agree n r r' =
    (start type : ℕ) (props_size : Option ℕ) (child : NodeStruct) (position : ℕ) (bytes : List ℕ)
    → length bytes ≤ n
    → r start type props_size child position bytes ≡ r' start type props_size child position bytes

scan_byte-Shortens : (r : Scan) → Shortens r → Shortens (scan_byte r)
scan_byte-Shortens r h start type props_size child position [] = tt
scan_byte-Shortens r h start type props_size child position (byte ∷ bytes) =
    elim (Bool-cases (byte == node_start)) [
      | inl s ↦ rw (s, scan_byte) (at_start bytes)
      | inr s ↦ elim (Bool-cases (byte == node_end)) [
        | inl e ↦ rw (s, e, scan_byte) (at_end bytes)
        | inr e ↦ elim (Bool-cases (byte == escape_char)) [
          | inl c ↦ rw (s, e, c, scan_byte) (at_escape bytes)
          | inr c ↦
              rw (s, e, c, scan_byte)
                (Shorter-le _ bytes _ (h start type props_size child (position + 1) bytes)
                  (omega arith))
        ]
      ]
    ]
  where
    at_start :
        (bs : List ℕ)
        → Shorter (scan_byte r start type props_size child position (node_start ∷ bs)) (byte ∷ bs)
    at_start [] = tt
    at_start (t ∷ bs) = elim (Option-cases (r position t none null (position + 2) bs)) [
      | inl e ↦ rw (e, scan_byte) tt
      | inr ((c, p, rest), e) ↦
          let less : length rest ≤ length bs =
            subst (λ x. Shorter x bs) e (h position t none null (position + 2) bs) in
          rw (e, scan_byte)
            (Shorter-le _ rest _ (h start type (some (position - start - 2)) c p rest)
              (omega arith))
    ]

    at_end :
        (bs : List ℕ)
        → Shorter (scan_byte r start type props_size child position (node_end ∷ bs)) (byte ∷ bs)
    at_end [] = omega arith
    at_end (b ∷ bs) = elim (Bool-cases (b == node_start)) [
      | inl s ↦ rw (s, scan_byte) (at_next bs)
      | inr s ↦ elim (Bool-cases (b == node_end)) [
        | inl e ↦ rw (s, e, scan_byte) (omega arith)
        | inr e ↦ rw (s, e, scan_byte) tt
      ]
    ]
      where
        at_next :
            (bs : List ℕ)
            → Shorter
                (scan_byte r start type props_size child position (node_end ∷ node_start ∷ bs))
                (byte ∷ b ∷ bs)
        at_next [] = tt
        at_next (t ∷ bs) =
            elim (Option-cases (r (position + 1) t none null (position + 1 + 2) bs)) [
              | inl e ↦ rw (e, scan_byte) tt
              | inr ((c, p, rest), e) ↦
                  let less : length rest ≤ length bs =
                    subst (λ x. Shorter x bs) e
                      (h (position + 1) t none null (position + 1 + 2) bs) in
                  rw (e, scan_byte) (omega arith)
            ]

    at_escape :
        (bs : List ℕ)
        → Shorter (scan_byte r start type props_size child position (escape_char ∷ bs)) (byte ∷ bs)
    at_escape [] = tt
    at_escape (c ∷ bs) =
        Shorter-le _ bs _ (h start type props_size child (position + 2) bs) (omega arith)

scan_byte-Agree :
    (n : ℕ) (r r' : Scan) → Agree n r r' → Shortens r' → Agree (suc n) (scan_byte r) (scan_byte r')
scan_byte-Agree n r r' a h start type props_size child position [] le = refl
scan_byte-Agree n r r' a h start type props_size child position (byte ∷ bytes) le =
    elim (Bool-cases (byte == node_start)) [
      | inl s ↦ rw (s, scan_byte) (at_start bytes (omega arith))
      | inr s ↦ elim (Bool-cases (byte == node_end)) [
        | inl e ↦ rw (s, e, scan_byte) (at_end bytes (omega arith))
        | inr e ↦ elim (Bool-cases (byte == escape_char)) [
          | inl c ↦ rw (s, e, c, scan_byte) (at_escape bytes (omega arith))
          | inr c ↦
              rw (s, e, c, scan_byte)
                (a start type props_size child (position + 1) bytes (omega arith))
        ]
      ]
    ]
  where
    at_start :
        (bs : List ℕ)
        → length bs ≤ n
        → scan_byte r start type props_size child position (node_start ∷ bs)
          ≡ scan_byte r' start type props_size child position (node_start ∷ bs)
    at_start [] le = refl
    at_start (t ∷ bs) le =
        let same = a position t none null (position + 2) bs (omega arith) in
        elim (Option-cases (r' position t none null (position + 2) bs)) [
          | inl e ↦ rw (same, e, scan_byte) refl
          | inr ((c, p, rest), e) ↦
              let less : length rest ≤ length bs =
                subst (λ x. Shorter x bs) e (h position t none null (position + 2) bs) in
              rw (same, e, scan_byte)
                (a start type (some (position - start - 2)) c p rest (omega arith))
        ]

    at_end :
        (bs : List ℕ)
        → length bs ≤ n
        → scan_byte r start type props_size child position (node_end ∷ bs)
          ≡ scan_byte r' start type props_size child position (node_end ∷ bs)
    at_end [] le = refl
    at_end (b ∷ []) le = refl
    at_end (b ∷ t ∷ bs) le =
        let same = a (position + 1) t none null (position + 1 + 2) bs (omega arith) in
        elim (Bool-cases (b == node_start)) [
          | inl s ↦ rw (s, same, scan_byte) refl
          | inr s ↦ rw (s, scan_byte) refl
        ]

    at_escape :
        (bs : List ℕ)
        → length bs ≤ n
        → scan_byte r start type props_size child position (escape_char ∷ bs)
          ≡ scan_byte r' start type props_size child position (escape_char ∷ bs)
    at_escape [] le = refl
    at_escape (c ∷ bs) le = a start type props_size child (position + 2) bs (omega arith)

scan-Shortens : (k : ℕ) → Shortens (scan k)
unfolding scan
scan-Shortens zero start type props_size child position bytes = tt
scan-Shortens (suc k) start type props_size child position bytes =
    scan_byte-Shortens (scan k) (scan-Shortens k) start type props_size child position bytes

scan-nil :
    (k start type : ℕ) (props_size : Option ℕ) (child : NodeStruct) (position : ℕ)
    → scan k start type props_size child position [] ≡ none
unfolding scan
scan-nil zero start type props_size child position = refl
scan-nil (suc k) start type props_size child position = refl

scan-Agree : (n k k' : ℕ) → n ≤ k → n ≤ k' → Agree n (scan k) (scan k')
unfolding scan
scan-Agree zero k k' h h' start type props_size child position [] le =
    scan-nil k start type props_size child position
    ∙ sym (scan-nil k' start type props_size child position)
scan-Agree zero k k' h h' start type props_size child position (b ∷ bs) le =
    let bad : ⊥ = omega arith in elim bad [ ]
scan-Agree (suc n) zero k' h h' start type props_size child position bytes le = ground arith
scan-Agree (suc n) (suc k) zero h h' start type props_size child position bytes le = ground arith
scan-Agree (suc n) (suc k) (suc k') h h' start type props_size child position bytes le =
    scan_byte-Agree n (scan k) (scan k') (scan-Agree n k k' (omega arith) (omega arith))
      (scan-Shortens k') start type props_size child position bytes le

-- The parse of a node, from any state of its loop and on any bytes, gives with as much fuel as there
-- are bytes what it gives with any more.
pub scan-enough :
    (k start type : ℕ) (props_size : Option ℕ) (child : NodeStruct) (position : ℕ) (bytes : List ℕ)
    → length bytes ≤ k
    → scan k start type props_size child position bytes
      ≡ scan (length bytes) start type props_size child position bytes
scan-enough k start type props_size child position bytes le =
    scan-Agree (length bytes) k (length bytes) le (omega arith) start type props_size child position
      bytes (omega arith)

-- The parse with another answer at the end of its fuel.
unfoldable pub scan_or : Scan → ℕ → Scan
scan_or stop zero = stop
scan_or stop (suc fuel) = scan_byte (scan_or stop fuel)

scan_or-Agree : (stop : Scan) (n k : ℕ) → suc n ≤ k → Agree n (scan_or stop k) (scan k)
unfolding scan scan_or
scan_or-Agree stop n zero h start type props_size child position bytes le = absurd (omega arith)
scan_or-Agree stop n (suc k) h start type props_size child position [] le = refl
scan_or-Agree stop zero (suc k) h start type props_size child position (b ∷ bytes) le =
    absurd (omega arith)
scan_or-Agree stop (suc n) (suc k) h start type props_size child position (b ∷ bytes) le =
    scan_byte-Agree n (scan_or stop k) (scan k) (scan_or-Agree stop n k (omega arith))
      (scan-Shortens k) start type props_size child position (b ∷ bytes) le

-- The parse of a node ends: from any state of its loop and on any bytes, with more fuel than there
-- are bytes it never comes to the end of the fuel, so that whatever would be answered there makes
-- no difference.
pub scan-ends :
    (stop : Scan) (k start type : ℕ) (props_size : Option ℕ) (child : NodeStruct) (position : ℕ)
    (bytes : List ℕ)
    → suc (length bytes) ≤ k
    → scan_or stop k start type props_size child position bytes
      ≡ scan k start type props_size child position bytes
scan-ends stop k start type props_size child position bytes h =
    scan_or-Agree stop (length bytes) k h start type props_size child position bytes (omega arith)
