-- ===== src/Stun/Unknowns/Laws.antt =====
-- The search for unknown attributes against the list of attributes.
use libnice4android.Prelude.{
  ℕ, ◌<◌, Bool, false, not, ◌&&◌, ◌||◌, List, [], ◌∷◌, ◌==◌, if◌then◌else◌,
}
use libnice4android.Stun.Message.{Message}
use libnice4android.Stun.Message.Attributes.{Attr}
use libnice4android.Stun.Unknowns.{optional}

abbrev pub occurs : ℕ → List ℕ → Bool
occurs type [] = false
occurs type (k ∷ known) = k == type || occurs type known

abbrev pub AllNonzero : List ℕ → Type 0
AllNonzero [] = Unit {0}
AllNonzero (k ∷ known) = (0 < k) × AllNonzero known

-- The types of the mandatory attributes of a list that are not in `known`, in order.
unfoldable pub unknown_types : List ℕ → List Attr → List ℕ
unknown_types known [] = []
unknown_types known (a ∷ attrs) =
    if not (optional a.type) && not (occurs a.type known)
    then a.type ∷ unknown_types known attrs
    else unknown_types known attrs
