-- ===== src/Search/Paths.antt =====
-- `search_path_for_engine` of search_service.py on an exported graph: the bounded search for simple
-- paths. The deque is a list; the loop runs on fuel, and `none` means that the fuel ran out.
use graphrag_agent.Base.{
  ℕ, zero, suc, ◌&&◌, Option, none, some, List, [], ◌∷◌, ◌++◌, if◌then◌else◌, leb, length,
}
use graphrag_agent.Base.Text.{Str, str_eq, elem}

pub record Edge : Type 0 where
  pub source : Str
  pub target : Str
  pub relation : Str

-- (current, node_path, edge_path)
pub record Entry : Type 0 where
  pub current : Str
  pub node_path : List Str
  pub edge_path : List Edge

pub record FoundPath : Type 0 where
  pub nodes : List Str
  pub edges : List Edge

abbrev pub max_paths : ℕ
max_paths = 20

abbrev pub to_end : Str → Str → Edge → Str → List (Str × Edge) → List (Str × Edge)
to_end here there e node rest = if str_eq here node then (there, e) ∷ rest else rest

-- adjacency[node]: the edges whose two ends are nodes, at both of their ends
unfoldable pub adjacent : List Str → Str → List Edge → List (Str × Edge)
adjacent nodes node [] = []
adjacent nodes node (e ∷ edges) =
    let rest = adjacent nodes node edges in
    if elem e.source nodes && elem e.target nodes
    then to_end e.source e.target e node (to_end e.target e.source e node rest)
    else rest

abbrev pub longer : Entry → Str → Edge → Entry
longer entry neighbor e = record {
  current = neighbor;
  node_path = entry.node_path ++ neighbor ∷ [];
  edge_path = entry.edge_path ++ e ∷ [];
}

abbrev pub path_of : Entry → FoundPath
path_of entry = record { nodes = entry.node_path; edges = entry.edge_path }

-- The loop over the neighbours: the paths that end, and the entries that go on.
unfoldable pub extend : Str → Entry → List (Str × Edge) → List FoundPath × List Entry
extend to entry [] = ([], [])
extend to entry ((neighbor, e) ∷ rest) =
    let (found, open_ones) = extend to entry rest in
    if elem neighbor entry.node_path
    then (found, open_ones)
    else if str_eq neighbor to
    then (path_of (longer entry neighbor e) ∷ found, open_ones)
    else (found, longer entry neighbor e ∷ open_ones)

-- The while loop.
unfoldable pub search_loop :
    List Str → List Edge → Str → ℕ → ℕ → List Entry → List FoundPath → Option (List FoundPath)
unfolding adjacent extend
search_loop nodes edges to max_hops zero queue paths = none
search_loop nodes edges to max_hops (suc fuel) [] paths = some paths
search_loop nodes edges to max_hops (suc fuel) (entry ∷ queue) paths =
    let skipped = search_loop nodes edges to max_hops fuel queue paths in
    let next = extend to entry (adjacent nodes entry.current edges) in
    let expanded = search_loop nodes edges to max_hops fuel (queue ++ next.1) (paths ++ next.0) in
    if leb max_paths (length paths)
    then some paths
    else if leb max_hops (length entry.edge_path)
    then skipped
    else expanded

abbrev pub start : Str → Entry
start from = record { current = from; node_path = from ∷ []; edge_path = [] }

-- What the function returns: None where an end is no node, or the paths; and it may, with too
-- little fuel, not have ended.
pub data SearchResult : Type 0 where
  unfinished : SearchResult
  no_such_node : SearchResult
  paths_found : List FoundPath → SearchResult

abbrev pub as_result : Option (List FoundPath) → SearchResult
as_result none = unfinished
as_result (some paths) = paths_found paths

unfoldable pub search_path_for_engine : ℕ → List Str → List Edge → Str → Str → ℕ → SearchResult
unfolding search_loop
search_path_for_engine fuel nodes edges from to max_hops =
    if elem from nodes && elem to nodes
    then as_result (search_loop nodes edges to max_hops fuel (start from ∷ []) [])
    else no_such_node
