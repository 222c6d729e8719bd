-- ===== src/Builder/Examples.antt =====
-- build_kg's theorem on a concrete page, where lower-casing changes nothing.
use Prim.Native.String.{String}
use graphrag_agent.Base.{◌≡◌, refl, none, some, List, [], ◌∷◌}
use graphrag_agent.Base.Text.{Str, codes}
use graphrag_agent.Assembler.Pages.{PageText}
use graphrag_agent.Cooccurrence.Pairs.{Edge}
use graphrag_agent.Builder.Graph.{Extraction, Node, build_kg, node_id, digits, entity_of}
use graphrag_agent.Builder.Built.{IsGraph, build_kg-IsGraph}

abbrev unchanged : Str → Str
unchanged s = s

abbrev front : PageText
front = record { page_idx = 0; text = codes "acme ships kit"; block_spans = [] }

abbrev extracted : String → String → Extraction
extracted name kind = record {
  text = codes name;
  kind = codes kind;
  alignment = some (codes "match_exact");
  interval = none;
}

abbrev found_twice : List Extraction
found_twice =
    extracted "acme" "company" ∷ extracted "road kit" "product" ∷ extracted "acme" "company" ∷ []

kit_id :
    node_id unchanged (entity_of 0 (codes "d1") (extracted "road kit" "product") []) 12
    ≡ codes "prod_roadkit_12"
unfolding node_id digits
kit_id = refl

build_kg-IsGraph_example :
    (g : List Node × List Edge) × (build_kg unchanged (front ∷ []) (found_twice ∷ []) (codes "d1")
      ≡ some g)
    × IsGraph unchanged (front ∷ []) (found_twice ∷ []) g
build_kg-IsGraph_example = build_kg-IsGraph unchanged (front ∷ []) (found_twice ∷ []) (codes "d1")
