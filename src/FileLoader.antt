-- ===== src/FileLoader.antt =====
-- Files of nested nodes, source 7.6/fileloader.h and fileloader.cpp: the format of the maps and
-- the item table. A file is its bytes; reading is modelled without the cache of blocks, and fwrite
-- is taken to succeed. A pointer to a NodeStruct is the structure itself, or `null`.
pub mod Tree
pub mod RoundTrip
pub mod Fuel
mod Tests
use jamera_server.Base.{
  ℕ, zero, suc, ◌+◌, ◌-◌, Bool, true, false, ◌&&◌, ◌||◌, Option, none, some, List, [], ◌∷◌, ◌++◌,
  ltb, leb, ◌==◌, if◌then◌else◌, length, take, drop,
}
use jamera_server.Base.Bytes.{from_le}

-- SPECIAL_BYTES
abbrev pub node_start : ℕ
node_start = 254

abbrev pub node_end : ℕ
node_end = 255

abbrev pub escape_char : ℕ
escape_char = 253

abbrev pub is_special : ℕ → Bool
is_special c = c == node_start || c == node_end || c == escape_char

-- The bytes that writeData puts into the file.
unfoldable pub written : Bool → List ℕ → List ℕ
written unescape [] = []
written unescape (c ∷ cs) =
    if unescape && is_special c
    then escape_char ∷ c ∷ written unescape cs
    else c ∷ written unescape cs

abbrev pub File : Type 0
File = List ℕ

-- writeData
pub write_data : List ℕ → Bool → File → File
unfolding written
write_data bytes unescape file = file ++ written unescape bytes

-- openFile for writing, startNode, setProps, endNode
pub open_write : File
unfolding write_data
open_write = write_data (0 ∷ 0 ∷ 0 ∷ 0 ∷ []) false []

pub start_node : ℕ → File → File
unfolding write_data
start_node type file = write_data (type ∷ []) true (write_data (node_start ∷ []) false file)

pub set_props : List ℕ → File → File
unfolding write_data
set_props bytes file = write_data bytes true file

pub end_node : File → File
unfolding write_data
end_node file = write_data (node_end ∷ []) false file

-- NodeStruct: type, start, propsSize, child and next.
pub data NodeStruct : Type 0 where
  null : NodeStruct
  node : ℕ → ℕ → ℕ → NodeStruct → NodeStruct → NodeStruct

-- propsSize at the end of a node: it was set at the start of a child, or is set now.
abbrev pub final_size : ℕ → ℕ → Option ℕ → ℕ
final_size start position none = position - start - 2
final_size start position (some size) = size

-- What the rest of a parse answers: the node, where the file stands then, and the bytes from there.
abbrev pub Scan : Type 0
Scan = ℕ → ℕ → Option ℕ → NodeStruct → ℕ → List ℕ → Option (NodeStruct × ℕ × List ℕ)

-- One turn of the inner loop of parseNode, in a node with its start, its type, its propsSize (there
-- when setPropsSize is) and its child, at the position of the next byte, which safeTell answers once
-- the byte is read. `rec` is the parse of a child, of the next node, and the next turn of the loop.
abbrev pub scan_byte : Scan → Scan
scan_byte rec start type props_size child position [] = none
scan_byte rec start type props_size child position (byte ∷ bytes) = elim (byte == node_start) [
  | true ↦ elim bytes [
    | [] ↦ none
    | child_type ∷ rest ↦ elim (rec position child_type none null (position + 2) rest) [
      | none ↦ none
      | some (child_node, position', rest') ↦
          rec start type (some (position - start - 2)) child_node position' rest'
    ]
  ]
  | false ↦ elim (byte == node_end) [
    | true ↦
        let size = final_size start position props_size in
        elim bytes [
          | [] ↦ some (node type start size child null, position + 1, [])
          | next_byte ∷ rest ↦ elim (next_byte == node_start) [
            | true ↦ elim rest [
              | [] ↦ none
              | next_type ∷ rest' ↦
                  elim (rec (position + 1) next_type none null (position + 1 + 2) rest') [
                    | none ↦ none
                    | some (next, position', rest'') ↦
                        some (node type start size child next, position', rest'')
                  ]
            ]
            | false ↦
                if next_byte == node_end
                then some (node type start size child null, position + 1, next_byte ∷ rest)
                else none
          ]
        ]
    | false ↦ elim (byte == escape_char) [
      | true ↦ elim bytes [
        | [] ↦ none
        | escaped ∷ rest ↦ rec start type props_size child (position + 2) rest
      ]
      | false ↦ rec start type props_size child (position + 1) bytes
    ]
  ]
]

-- parseNode from behind the type of a node on. One unit of fuel is for one byte, or an escape with
-- its byte.
unfoldable pub scan : ℕ → Scan
scan zero start type props_size child position bytes = none
scan (suc fuel) start type props_size child position bytes =
    scan_byte (scan fuel) start type props_size child position bytes

-- openFile for reading: the version, and the tree of nodes from the fourth byte on.
pub open_read : File → Option NodeStruct
unfolding scan
open_read (v0 ∷ v1 ∷ v2 ∷ v3 ∷ byte ∷ type ∷ bytes) =
    if from_le (v0 ∷ v1 ∷ v2 ∷ v3 ∷ []) == 0 && byte == node_start
    then elim (scan (length (byte ∷ type ∷ bytes)) 4 type none null 6 bytes) [
      | none ↦ none
      | some (root, position, rest) ↦ some root
    ]
    else none
open_read file = none

-- The loop of getProps over the buffer; `stale` is the byte behind the contents of the buffer, which
-- is read if the last byte is an escape.
unfoldable pub unescape : ℕ → List ℕ → List ℕ
unescape stale [] = []
unescape stale (c ∷ []) = if c == escape_char then stale ∷ [] else c ∷ []
unescape stale (c ∷ d ∷ ds) = elim (c == escape_char) [
  | true ↦ d ∷ unescape stale ds
  | false ↦ c ∷ unescape stale (d ∷ ds)
]

-- getProps: it has no node or cannot read, it writes behind the end of m_buffer, or it gives bytes.
pub data Props : Type 0 where
  fails overruns : Props
  props : List ℕ → Props

-- m_buffer_size after getProps has looked whether the buffer is too small.
abbrev pub grown : ℕ → ℕ → ℕ
grown props_size buffer_size =
    if leb buffer_size props_size then buffer_size + 1024 else buffer_size

pub get_props : ℕ → ℕ → File → NodeStruct → Props
unfolding unescape
get_props stale buffer_size file null = fails
get_props stale buffer_size file (node type start props_size child next) =
    if ltb (length file) (start + 2 + props_size)
    then fails
    else if ltb (grown props_size buffer_size) props_size
    then overruns
    else props (unescape stale (take props_size (drop (start + 2) file)))

-- A pointer to a node with the node's type, if there is a node.
typed : NodeStruct → Option (NodeStruct × ℕ)
typed null = none
typed (node type start props_size child next) = some (node type start props_size child next, type)

-- getChildNode, which answers the root for no parent, and getNextNode
pub get_child_node : NodeStruct → NodeStruct → Option (NodeStruct × ℕ)
unfolding typed
get_child_node root null = typed root
get_child_node root (node type start props_size child next) = typed child

pub get_next_node : NodeStruct → Option (NodeStruct × ℕ)
unfolding typed
get_next_node null = none
get_next_node (node type start props_size child next) = typed next
