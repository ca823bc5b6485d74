-- ===== src/FileLoader/Tree.antt =====
-- What is written as a tree of nodes with startNode, setProps and endNode is parsed to its nodes.
use mathlib.Core.Path.{subst}
use jamera_server.Base.{
  ℕ, zero, suc, ◌+◌, ◌-◌, ◌≤◌, ◌<◌, ◌≡◌, inl, inr, refl, ap, ◌∙◌, Bool, true, false, Option, none,
  some, List, [], ◌∷◌, ◌++◌, ◌==◌, length, Bool-cases, arith,
}
use jamera_server.FileLoader.{
  node_start, node_end, escape_char, is_special, written, File, write_data, start_node, set_props,
  end_node, NodeStruct, scan_byte, null, node, final_size, scan,
}

-- A node with its type, its properties, its first child, and the node next to it.
pub data Tree : Type 0 where
  empty : Tree
  tree : ℕ → List ℕ → Tree → Tree → Tree

-- Such a tree is written with the operations of the loader.
unfoldable pub write_tree : Tree → File → File
write_tree empty file = file
write_tree (tree type bytes child next) file =
    write_tree next (end_node (write_tree child (set_props bytes (start_node type file))))

-- No type is one of the special bytes.
abbrev pub PlainTypes : Tree → Type 0
PlainTypes empty = Unit
PlainTypes (tree type bytes child next) = (type < 253) × PlainTypes child × PlainTypes next

-- The bytes of a tree in front of others, and their number.
abbrev pub put : Tree → List ℕ → List ℕ
put empty tail = tail
put (tree type bytes child next) tail =
    node_start ∷ type ∷ (written true bytes ++ put child (node_end ∷ put next tail))

abbrev pub size : Tree → ℕ
size empty = 0
size (tree type bytes child next) = 3 + length (written true bytes) + size child + size next

-- The nodes of a tree that starts at a position.
abbrev pub nodes : ℕ → Tree → NodeStruct
nodes position empty = null
nodes position (tree type bytes child next) =
    let behind = position + 2 + length (written true bytes) in
    node type position (length (written true bytes)) (nodes behind child)
      (nodes (behind + size child + 1) next)

-- The fuel that the parse of a node takes.
abbrev pub need : Tree → ℕ
need empty = 1
need (tree type bytes child next) = length bytes + 1 + need child + need next

pub append_assoc : (xs ys zs : List ℕ) → (xs ++ ys) ++ zs ≡ xs ++ (ys ++ zs)
append_assoc [] ys zs = refl
append_assoc (x ∷ xs) ys zs = ap (◌∷◌ x) (append_assoc xs ys zs)

scan-written :
    (k fuel start type : ℕ) (props_size : Option ℕ) (child : NodeStruct) (position : ℕ)
    (bytes rest : List ℕ)
    → k ≡ length bytes + fuel
    → scan k start type props_size child position (written true bytes ++ rest)
      ≡ scan fuel start type props_size child (position + length (written true bytes)) rest
unfolding written scan
scan-written k fuel start type props_size child position [] rest e =
    let same : k ≡ fuel = omega arith in
    let at : position + 0 ≡ position = omega arith in rw (same, at) refl
scan-written zero fuel start type props_size child position (c ∷ cs) rest e = ground arith
scan-written (suc k) fuel start type props_size child position (c ∷ cs) rest e =
    elim (Bool-cases (is_special c)) [
      | inl s ↦
          let ih =
            scan-written k fuel start type props_size child (position + 2) cs rest (omega arith) in
          let at : position + 2 + length (written true cs)
              ≡ position + suc (suc (length (written true cs))) =
            omega arith in
          rw (s, scan, scan_byte) (ih ∙ ap (λ p. scan fuel start type props_size child p rest) at)
      | inr s ↦
          let ih =
            scan-written k fuel start type props_size child (position + 1) cs rest (omega arith) in
          let at : position + 1 + length (written true cs)
              ≡ position + suc (length (written true cs)) =
            omega arith in
          let f1 : (c == node_start) ≡ false = ground arith in
          let f2 : (c == node_end) ≡ false = ground arith in
          let f3 : (c == escape_char) ≡ false = ground arith in
          rw (s, f1, f2, f3, scan, scan_byte)
            (ih ∙ ap (λ p. scan fuel start type props_size child p rest) at)
    ]

pub write_tree_lem :
    (t : Tree) (file tail : List ℕ) → PlainTypes t → write_tree t file ++ tail ≡ file ++ put t tail
unfolding write_tree end_node set_props start_node write_data written
write_tree_lem empty file tail h = refl
write_tree_lem (tree type bytes child next) file tail (h, hc, hn) =
    let plain : is_special type ≡ false = ground arith in
    rw
      (
        write_tree_lem next _ tail hn,
        append_assoc,
        write_tree_lem child _ _ hc,
        append_assoc,
        plain,
        append_assoc,
        append_assoc,
      )
      refl

-- What may stand behind the last node of a row: the end of the file or of the parent node.
abbrev pub at_end : List ℕ → Bool
at_end [] = true
at_end (b ∷ bs) = b == node_end

-- With enough fuel a row of nodes is parsed, up to the end behind it.
abbrev pub Parses : ℕ → Tree → List ℕ → Type 0
Parses position empty tail = at_end tail ≡ true
Parses position (tree type bytes child next) tail =
    (k : ℕ)
    → need (tree type bytes child next) ≤ k
    → scan k position type none null (position + 2)
        (written true bytes ++ put child (node_end ∷ put next tail))
      ≡ some (
        nodes position (tree type bytes child next),
        position + size (tree type bytes child next),
        tail,
      )

scan-end :
    (k start type : ℕ) (props_size : Option ℕ) (child : NodeStruct) (position : ℕ) (next : Tree)
    (tail : List ℕ)
    → Parses (position + 1) next tail
    → need next ≤ k
    → scan (suc k) start type props_size child position (node_end ∷ put next tail)
      ≡ some (
        node type start (final_size start position props_size) child (nodes (position + 1) next),
        position + 1 + size next,
        tail,
      )
unfolding scan
scan-end k start type props_size child position empty [] h le =
    let at : position + 1 + 0 ≡ position + 1 = omega arith in rw at refl
scan-end k start type props_size child position empty (b ∷ bs) h le =
    let at : position + 1 + 0 ≡ position + 1 = omega arith in
    let f : (b == node_start) ≡ false = ground arith in rw (at, f, h, scan, scan_byte) refl
scan-end k start type props_size child position (tree t bytes c n) tail h le = rw (h k le) refl

scan-child :
    (k start type position : ℕ) (child next : Tree) (tail : List ℕ)
    → Parses position child (node_end ∷ put next tail)
    → Parses (position + size child + 1) next tail
    → need child + need next ≤ k
    → scan (suc k) start type none null position (put child (node_end ∷ put next tail))
      ≡ some (
        node type start
            (position - start - 2)
            (nodes position child)
            (nodes (position + size child + 1) next),
        position + size child + 1 + size next,
        tail,
      )
unfolding scan
scan-child k start type position empty next tail hc hn le =
    let at : position + 0 ≡ position = omega arith in
    let hn' : Parses (position + 1) next tail = subst (λ p. Parses (p + 1) next tail) at hn in
    rw at (scan-end k start type none null position next tail hn' (omega arith))
scan-child zero start type position (tree t bytes c n) next tail hc hn le =
    let bad : ⊥ = omega arith in elim bad [ ]
scan-child (suc k) start type position (tree t bytes c n) next tail hc hn le =
    rw (hc (suc k) (omega arith), scan, scan_byte)
      (scan-end k start type (some (position - start - 2)) (nodes position (tree t bytes c n))
        (position + size (tree t bytes c n)) next tail hn (omega arith))

pub parses : (t : Tree) (position : ℕ) (tail : List ℕ) → at_end tail ≡ true → Parses position t tail
parses empty position tail h = h
parses (tree type bytes child next) position tail h = λ k le.
    let behind = position + 2 + length (written true bytes) in
    let fuel = k - length bytes - 1 in
    let hc = parses child behind (node_end ∷ put next tail) refl in
    let hn = parses next (behind + size child + 1) tail h in
    let most : need child + need next ≤ fuel = omega arith in
    let end : behind + size child + 1 + size next ≡ position + size (tree type bytes child next) =
      omega arith in
    let own : behind - position - 2 ≡ length (written true bytes) = omega arith in
    let props =
      scan-written k (suc fuel) position type none null (position + 2) bytes
        (put child (node_end ∷ put next tail)) (omega arith) in
    let body = scan-child fuel position type behind child next tail hc hn most in
    props ∙ body ∙ rw (own, end) refl
