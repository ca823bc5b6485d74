-- ===== src/FileLoader/Tests.antt =====
-- Files at concrete inputs: a root with a child whose properties have special bytes.
use jamera_server.Base.{none, ◌≡◌, refl, some, [], ◌∷◌, arith}
use jamera_server.FileLoader.{scan, Scan, open_write, NodeStruct, null, node, open_read, written}
use jamera_server.FileLoader.Tree.{Tree, empty, tree, write_tree, PlainTypes}
use jamera_server.FileLoader.Fuel.{scan_or, scan-ends}
use jamera_server.FileLoader.RoundTrip.{FitsBuffer, Shows, open_read-Shows}

abbrev child : Tree
child = tree 4 (253 ∷ 7 ∷ 255 ∷ []) empty (tree 9 [] empty empty)

abbrev map_file : Tree
map_file = tree 0 (1 ∷ 254 ∷ []) child empty

plain : PlainTypes map_file
plain = (omega arith, (omega arith, tt, (omega arith, tt, tt)), tt)

fits : FitsBuffer 1024 map_file
unfolding written
fits = (omega arith, (omega arith, tt, (omega arith, tt, tt)), tt)

open_read-Shows_example :
    (root : NodeStruct) × (open_read (write_tree map_file open_write) ≡ some root)
    × Shows 1024 (write_tree map_file open_write) root map_file
open_read-Shows_example = open_read-Shows 0 1024 (1 ∷ 254 ∷ []) child plain fits

-- A node of type 4 with one byte and no child, at the end of a file.
abbrev stop : Scan
stop start type props_size first_child position bytes = some (null, 0, [])

scan-ends_example :
    scan_or stop 3 4 4 none null 6 (7 ∷ 255 ∷ []) ≡ scan 3 4 4 none null 6 (7 ∷ 255 ∷ [])
scan-ends_example = scan-ends stop 3 4 4 none null 6 (7 ∷ 255 ∷ []) (omega arith)

scanned : scan 2 4 4 none null 6 (7 ∷ 255 ∷ []) ≡ some (node 4 4 1 null null, 8, [])
unfolding scan
scanned = refl
