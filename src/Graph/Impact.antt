-- ===== src/Graph/Impact.antt =====
-- `impact` of graph.py: what depends on a resource, each with a path from it.
use open_tapeout.Prelude.{
  ℕ, zero, suc, String, List, [], ◌∷◌, ◌++◌, if◌then◌else◌, has, contains, sorted, length,
}
use open_tapeout.Result.{out_of_fuel, Result, ok, err, ensure, ◌>>◌}
use open_tapeout.Graph.{Graph}

pub record Impacted : Type 0 where
  pub resource : String
  pub path : List String

-- `seen`, `queue` and `result` of the loop
pub record Walk : Type 0 where
  pub seen : List String
  pub queue : List Impacted
  pub result : List Impacted

-- `for child in sorted(self.children[current])`
unfoldable pub meet : List String → List String → Walk → Walk
meet path [] s = s
meet path (child ∷ rest) s =
    let row : Impacted = record { resource = child; path = path ++ child ∷ [] } in
    meet path rest (
      if contains child s.seen then s else record {
        seen = child ∷ s.seen;
        queue = s.queue ++ row ∷ [];
        result = s.result ++ row ∷ [];
      })

unfoldable pub spread : Graph → ℕ → Walk → Result (List Impacted)
unfolding meet
spread g zero s = elim s.queue [ [] ↦ ok s.result | _ ∷ _ ↦ err out_of_fuel ]
spread g (suc fuel) s = elim s.queue [
  | [] ↦ ok s.result
  | current ∷ rest ↦
      spread g fuel
        (meet current.path (sorted (g.children current.resource)) (record s { queue = rest }))
]

unfoldable pub impact : Graph → String → Result (List Impacted)
unfolding spread
impact g key = do
  ensure (has key g.resources) "Unknown resource"
  spread g (length g.resources) (record {
    seen = key ∷ [];
    queue = record { resource = key; path = key ∷ [] } ∷ [];
    result = [];
  })
