-- ===== src/Tests/Dependencies.antt =====
-- A netlist from the layout's project, and two resources that depend on each other.
use open_tapeout.Prelude.{
  ℕ, String, true, none, some, List, [], ◌∷◌, ◌≡◌, ◌≢◌, ◌↔◌, refl, Dict, has, length, lookup,
  Distinct, if◌then◌else◌,
}
use open_tapeout.Result.{ok, err, out_of_fuel}
use open_tapeout.Records.{Resource}
use open_tapeout.Graph.{Graph, update, build, closure}
use open_tapeout.Graph.Reach.{Needs, closure_iff}
use open_tapeout.Graph.Fuel.{closure-ends}
use open_tapeout.Graph.Counts.{count}
use open_tapeout.Graph.Ordered.{IsTopological, build-IsTopological}
use open_tapeout.Planning.{affected_paths}
use open_tapeout.Planning.Explained.{IsPath, affected_paths-IsPath}
use open_tapeout.Tests.Project.{platform, layout}

abbrev netlist : Resource
netlist = record layout {
  kind = "netlist";
  sha256 = "netlist-1";
  depends_on = "layout" ∷ [];
  built_from = ("layout", "layout-1") ∷ [];
}

-- The netlist is registered first, and visited last.
abbrev chip : Dict Resource
chip = ("netlist", netlist) ∷ ("layout", layout) ∷ []

abbrev graph : Graph
graph = record {
  resources = chip;
  fingerprints = ("layout", "layout-1") ∷ ("netlist", "netlist-1") ∷ [];
  stale = ("layout", []) ∷ ("netlist", []) ∷ [];
  order = "layout" ∷ "netlist" ∷ [];
  children = update (λ k. []) "layout" ("netlist" ∷ []);
}

abbrev selected : Dict String
selected = ("layout", "layout-1") ∷ ("netlist", "netlist-1") ∷ []

closure-netlist : closure graph ("netlist" ∷ []) ≡ ok selected
unfolding closure open_tapeout.Prelude.sorted open_tapeout.Prelude.lookup
    open_tapeout.Prelude.contains
closure-netlist = refl

closure_iff_example : (has "layout" selected ≡ true) ↔ Needs chip ("netlist" ∷ []) "layout"
closure_iff_example = closure_iff graph ("netlist" ∷ []) selected closure-netlist "layout"

-- Two resources that depend on each other.
abbrev circle : Graph
circle = record graph {
  resources =
      ("a", record netlist { depends_on = "b" ∷ [] })
      ∷ ("b", record netlist { depends_on = "a" ∷ [] })
      ∷ [];
}

closure-ends_example : closure circle ("a" ∷ []) ≢ err out_of_fuel
closure-ends_example = closure-ends circle ("a" ∷ [])

build-chip : build platform chip ≡ ok graph
unfolding build open_tapeout.Prelude.sorted open_tapeout.Prelude.lookup open_tapeout.Prelude.insert
    open_tapeout.Prelude.contains open_tapeout.Prelude.to_set open_tapeout.Util.identifier
build-chip = refl

chip-Distinct : Distinct chip
unfolding lookup
chip-Distinct = (refl, (refl, tt))

build-IsTopological_example :
    IsTopological chip graph.order
    × ((k : String) → count k graph.order ≡ (if has k chip then 1 else 0))
    × (length graph.order ≡ length chip)
build-IsTopological_example = build-IsTopological platform chip graph chip-Distinct build-chip

abbrev paths : Dict (List String)
paths = ("layout", "layout" ∷ []) ∷ ("netlist", "layout" ∷ "netlist" ∷ []) ∷ []

affected_paths-layout : affected_paths graph ("layout" ∷ []) ≡ ok paths
unfolding affected_paths open_tapeout.Graph.update open_tapeout.Prelude.sorted
    open_tapeout.Prelude.lookup open_tapeout.Prelude.insert open_tapeout.Prelude.contains
    open_tapeout.Prelude.to_set
affected_paths-layout = refl

lookup-netlist : lookup "netlist" paths ≡ some ("layout" ∷ "netlist" ∷ [])
unfolding lookup
lookup-netlist = refl

affected_paths-IsPath_example : IsPath graph ("layout" ∷ []) ("layout" ∷ "netlist" ∷ []) "netlist"
affected_paths-IsPath_example =
    affected_paths-IsPath graph ("layout" ∷ []) paths "netlist" ("layout" ∷ "netlist" ∷ [])
      affected_paths-layout lookup-netlist
