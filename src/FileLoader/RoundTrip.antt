-- ===== src/FileLoader/RoundTrip.antt =====
-- A file that was written node by node is read back.
use mathlib.Core.Path.{subst}
use jamera_server.Base.{
  ℕ, suc, ◌+◌, ◌≤◌, ◌<◌, ◌≡◌, ◌≢◌, ◌⊎◌, inl, inr, refl, sym, ap, ◌∙◌, true, false, some, List, [],
  ◌∷◌, ◌++◌, ltb, ◌==◌, length, length-append, drop, Bool-cases, arith,
}
use jamera_server.Base.Bytes.{take-append, drop-append}
use jamera_server.FileLoader.{
  node_start, node_end, escape_char, is_special, written, write_data, File, open_write, start_node,
  end_node, NodeStruct, null, node, open_read, scan, unescape, overruns, props, grown, get_props,
}
use jamera_server.FileLoader.Tree.{
  Tree, empty, tree, write_tree, PlainTypes, put, size, nodes, need, append_assoc, write_tree_lem,
  parses,
}

length-written : (bs : List ℕ) → length bs ≤ length (written true bs)
unfolding written
length-written [] = omega arith
length-written (c ∷ cs) = ground (arith, length-written cs)

need-size : (t : Tree) → need t ≤ size t + 1
need-size empty = omega arith
need-size (tree type bytes child next) =
    let c = need-size child in let n = need-size next in let w = length-written bytes in omega arith

append-nil : (xs : List ℕ) → xs ++ [] ≡ xs
append-nil [] = refl
append-nil (x ∷ xs) = ap (λ l. x ∷ l) (append-nil xs)

length-put : (t : Tree) (tail : List ℕ) → length (put t tail) ≡ size t + length tail
length-put empty tail = omega arith
length-put (tree type bytes child next) tail = omega (
  arith,
  length-append (written true bytes) (put child (node_end ∷ put next tail)),
  length-put child (node_end ∷ put next tail),
  length-put next tail,
)

-- The bytes of a tree, in a file that starts with the version 0.
file_lem : (t : Tree) → PlainTypes t → write_tree t open_write ≡ 0 ∷ 0 ∷ 0 ∷ 0 ∷ put t []
unfolding open_write write_data written
file_lem t h = sym (append-nil (write_tree t open_write)) ∙ write_tree_lem t open_write [] h

-- A tree of nodes none of whose types is a special byte, and that has one root, is written and
-- parsed again: the tree of NodeStructs has its types in their places, and every node starts where
-- it was written, with the number of the bytes that its properties take in the file.
pub open_read-write_tree :
    (type : ℕ) (bytes : List ℕ) (child : Tree)
    → PlainTypes (tree type bytes child empty)
    → open_read (write_tree (tree type bytes child empty) open_write)
      ≡ some (nodes 4 (tree type bytes child empty))
unfolding open_read
open_read-write_tree type bytes child h =
    let file = file_lem (tree type bytes child empty) h in
    let fuel : need (tree type bytes child empty)
        ≤ suc (suc (length (written true bytes ++ put child (node_end ∷ [])))) =
      omega (
        arith,
        length-append (written true bytes) (put child (node_end ∷ [])),
        length-put child (node_end ∷ []),
        need-size child,
        length-written bytes,
      ) in
    let whole = parses (tree type bytes child empty) 4 [] refl _ fuel in rw (file, whole) refl

unescape-cons :
    (stale c : ℕ) (l : List ℕ)
    → (c == escape_char) ≡ false
    → unescape stale (c ∷ l) ≡ c ∷ unescape stale l
unfolding unescape
unescape-cons stale c [] h = rw h refl
unescape-cons stale c (d ∷ ds) h = rw (h, unescape) refl

unescape-written : (stale : ℕ) (bs : List ℕ) → unescape stale (written true bs) ≡ bs
unfolding unescape written
unescape-written stale [] = refl
unescape-written stale (c ∷ cs) = elim (Bool-cases (is_special c)) [
  | inl s ↦ rw s (ap (λ l. c ∷ l) (unescape-written stale cs))
  | inr s ↦
      let plain : (c == escape_char) ≡ false = ground arith in
      rw s (unescape-cons stale c _ plain ∙ ap (λ l. c ∷ l) (unescape-written stale cs))
]

-- The nodes and the tree agree: at every node the type is that of the tree, and getProps gives
-- the properties of the tree, whatever the buffer held before.
abbrev pub Shows : ℕ → File → NodeStruct → Tree → Type 0
Shows buffer_size file null empty = Unit
Shows buffer_size file null (tree type bytes child next) = ⊥
Shows buffer_size file (node type start props_size child next) empty = ⊥
Shows buffer_size file (node type start props_size child next) (tree type' bytes child' next') =
    (type ≡ type')
    × ((stale : ℕ)
        → get_props stale buffer_size file (node type start props_size child next) ≡ props bytes)
    × Shows buffer_size file child child'
    × Shows buffer_size file next next'

-- No properties take more bytes than the buffer has after it has grown once.
abbrev pub FitsBuffer : ℕ → Tree → Type 0
FitsBuffer buffer_size empty = Unit
FitsBuffer buffer_size (tree type bytes child next) =
    (length (written true bytes) ≤ buffer_size + 1024)
    × FitsBuffer buffer_size child
    × FitsBuffer buffer_size next

get_props_lem :
    (stale buffer_size position : ℕ) (before bytes rest : List ℕ) (type : ℕ)
    (child next : NodeStruct)
    → length before ≡ position + 2
    → length (written true bytes) ≤ buffer_size + 1024
    → get_props stale buffer_size
        (before ++ (written true bytes ++ rest))
        (node type position (length (written true bytes)) child next)
      ≡ props bytes
unfolding get_props
get_props_lem stale buffer_size position before bytes rest type child next at fits =
    let all : length (before ++ (written true bytes ++ rest))
        ≡ position + 2 + length (written true bytes) + length rest =
      omega (
        arith,
        length-append before (written true bytes ++ rest),
        length-append (written true bytes) rest,
      ) in
    let enough : ltb (length (before ++ (written true bytes ++ rest)))
          (position + 2 + length (written true bytes))
        ≡ false =
      ground arith in
    let room : ltb (grown (length (written true bytes)) buffer_size) (length (written true bytes))
        ≡ false =
      ground arith in
    let there : drop (position + 2) (before ++ (written true bytes ++ rest))
        ≡ written true bytes ++ rest =
      ap (λ n. drop n (before ++ (written true bytes ++ rest))) (sym at) ∙ drop-append before _ in
    rw (enough, room, there, take-append (written true bytes) rest, unescape-written stale bytes)
      refl

get_props_at :
    (stale buffer_size position : ℕ) (file before bytes rest : List ℕ) (type : ℕ)
    (child next : NodeStruct)
    → file ≡ before ++ (written true bytes ++ rest)
    → length before ≡ position + 2
    → length (written true bytes) ≤ buffer_size + 1024
    → get_props stale buffer_size file (node type position (length (written true bytes)) child next)
      ≡ props bytes
get_props_at stale buffer_size position file before bytes rest type child next e at fits =
    ap
      (λ f.
        get_props stale buffer_size f (node type position (length (written true bytes)) child next))
      e
    ∙ get_props_lem stale buffer_size position before bytes rest type child next at fits

put-append : (t : Tree) (xs ys : List ℕ) → put t (xs ++ ys) ≡ put t xs ++ ys
put-append empty xs ys = refl
put-append (tree type bytes child next) xs ys =
    rw (put-append next xs ys, put-append child (node_end ∷ put next xs) ys)
      (ap (λ l. node_start ∷ type ∷ l)
        (sym (append_assoc (written true bytes) (put child (node_end ∷ put next xs)) ys)))

shows :
    (t : Tree) (buffer_size position : ℕ) (file before tail : List ℕ)
    → length before ≡ position
    → file ≡ before ++ put t tail
    → FitsBuffer buffer_size t
    → Shows buffer_size file (nodes position t) t
shows empty buffer_size position file before tail at e f = tt
shows (tree type bytes child next) buffer_size position file before tail at e (f, fc, fn) =
    let rest = put child (node_end ∷ put next tail) in
    let head = before ++ (node_start ∷ type ∷ []) in
    let headed : file ≡ head ++ (written true bytes ++ rest) =
      e ∙ sym (append_assoc before (node_start ∷ type ∷ []) (written true bytes ++ rest)) in
    let own = before ++ (node_start ∷ type ∷ written true bytes) in
    let owned : file ≡ own ++ rest =
      e ∙ sym (append_assoc before (node_start ∷ type ∷ written true bytes) rest) in
    let past = own ++ put child (node_end ∷ []) in
    let passed : file ≡ past ++ put next tail =
      owned
      ∙ ap (λ l. own ++ l) (put-append child (node_end ∷ []) (put next tail))
      ∙ sym (append_assoc own (put child (node_end ∷ [])) (put next tail)) in
    let head_at : length head ≡ position + 2 =
      omega (arith, length-append before (node_start ∷ type ∷ [])) in
    let own_at : length own ≡ position + 2 + length (written true bytes) =
      omega (arith, length-append before (node_start ∷ type ∷ written true bytes)) in
    let past_at : length past ≡ position + 2 + length (written true bytes) + size child + 1 =
      omega
        (arith, length-append own (put child (node_end ∷ [])), length-put child (node_end ∷ [])) in
    (
      refl,
      λ stale.
          get_props_at stale buffer_size position file head bytes rest type _ _ headed head_at f,
      shows child buffer_size _ file own (node_end ∷ put next tail) own_at owned fc,
      shows next buffer_size _ file past tail past_at passed fn,
    )

-- A tree of nodes that has one root, no type that is a special byte, and no properties that take
-- more bytes than the buffer of getProps and 1024 more, is written with startNode, setProps and
-- endNode and read from the file again: openFile succeeds with nodes that have the types of the
-- tree in its shape, and getProps gives the properties of each node as they were written.
pub open_read-Shows :
    (type buffer_size : ℕ) (bytes : List ℕ) (child : Tree)
    → PlainTypes (tree type bytes child empty)
    → FitsBuffer buffer_size (tree type bytes child empty)
    → (root : NodeStruct) × (open_read (write_tree (tree type bytes child empty) open_write)
        ≡ some root)
      × Shows buffer_size
          (write_tree (tree type bytes child empty) open_write)
          root
          (tree type bytes child empty)
open_read-Shows type buffer_size bytes child h f =
    let t = tree type bytes child empty in
    (
      nodes 4 t,
      open_read-write_tree type bytes child h,
      shows t buffer_size 4 (write_tree t open_write) (0 ∷ 0 ∷ 0 ∷ 0 ∷ []) [] refl (file_lem t h) f,
    )

-- Properties that take more bytes than the buffer and 1024 more, and are all in the file, make
-- getProps write behind the end of the buffer.
pub get_props-overruns :
    (stale buffer_size start props_size type : ℕ) (file : File) (child next : NodeStruct)
    → start + 2 + props_size ≤ length file
    → buffer_size + 1024 < props_size
    → get_props stale buffer_size file (node type start props_size child next) ≡ overruns
unfolding get_props
get_props-overruns stale buffer_size start props_size type file child next h o = ground arith

special_cases : (c : ℕ) → is_special c ≡ true → (c ≡ 253) ⊎ (c ≡ 254) ⊎ (c ≡ 255)
special_cases c h = ground arith

abbrev Kept : ℕ → Type 0
Kept type = open_read (end_node (start_node type open_write)) ≡ some (node type 4 0 null null)

-- A node whose type is one of the special bytes is not read back with its type, since startNode
-- writes an escape in front of the type, and the parse takes the next byte for the type.
pub start_node-special :
    (type : ℕ)
    → is_special type ≡ true
    → open_read (end_node (start_node type open_write)) ≢ some (node type 4 0 null null)
unfolding open_read scan end_node start_node open_write write_data written
start_node-special type h = elim (special_cases type h) [
  | inl e ↦ λ kept. let bad : Kept 253 = subst Kept e kept in ground arith
  | inr (inl e) ↦ λ kept. let bad : Kept 254 = subst Kept e kept in ground arith
  | inr (inr e) ↦ λ kept. let bad : Kept 255 = subst Kept e kept in ground arith
]
