-- ===== src/Examples/Counted.antt =====
-- The counting of events at concrete inputs.
use ultramem.Prelude.{
  pos, ℤ, Text, codes, ascii, true, false, List, [], ◌∷◌, none, ◌≡◌, ◌↔◌, refl, Distinct, All, Memᴰ,
}
use ultramem.Graph.{StoredEdge}
use ultramem.Graph.Resolve.{GroupKey}
use ultramem.Engine.Counting.{event_instances}
use ultramem.Engine.Counting.Once.{objects, IsObject, IsInstance, event_instances_once}

abbrev wedding : Text → ℤ → StoredEdge
wedding object valid_from = record {
  id = codes "e1";
  edge = record {
    subject = codes "user";
    predicate = codes "attended";
    object = object;
    valid_from = valid_from;
    valid_to = none;
    singular = false;
  };
  captured_at = pos 9;
  is_latest = true;
}

abbrev weddings : List StoredEdge
weddings =
    wedding (codes "Ana's wedding") (pos 2)
    ∷ wedding (codes "Bo's wedding") (pos 4)
    ∷ wedding (codes "ana's Wedding") (pos 5)
    ∷ []

abbrev attended : GroupKey
attended = (codes "user", codes "attended")

counted :
    event_instances ascii attended [] weddings
    ≡ (codes "Ana's wedding", pos 2) ∷ (codes "Bo's wedding", pos 4) ∷ []
unfolding event_instances ultramem.Prelude.flat_map ascii
counted = refl

event_instances_once_example :
    Distinct (objects ascii (event_instances ascii attended [] weddings))
    × ((x : Text)
        → Memᴰ x (objects ascii (event_instances ascii attended [] weddings))
          ↔ IsObject ascii attended weddings x)
    × All (IsInstance ascii attended weddings) (event_instances ascii attended [] weddings)
event_instances_once_example = event_instances_once ascii attended weddings
