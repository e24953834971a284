-- ===== src/Distance/Suggest.antt =====
-- crates/proef-core/src/matcher.rs: `suggest_or_enumerate`, the tail of an unknown-name message.
use proef.Base.{ℕ, Option, none, some, List, [], ◌∷◌, ◌++◌, length, leb, if◌then◌else◌}
use proef.Base.Texts.{Text, codes}
use proef.Base.Maps.{TextSet, set_insert}
use proef.Base.Printing.{decimal}
use proef.Distance.{closest}

pub record Suggestion : Type 0 where
  pub tail : Text
  pub nearest : Option Text

-- `sort_unstable` and `dedup`
unfoldable pub sorted_known : List Text → TextSet
unfolding set_insert
sorted_known [] = []
sorted_known (t ∷ ts) = set_insert t (sorted_known ts)

-- `join(", ")`
unfoldable pub join : List Text → Text
join [] = []
join (t ∷ []) = t
join (t ∷ u ∷ ts) = t ++ (codes ", " ++ join (u ∷ ts))

abbrev pub counted : ℕ → Option Text → Text
counted n none = codes " (" ++ (decimal n ++ codes " known)")
counted n (some listing) =
    codes " (" ++ (decimal n ++ (codes " known — " ++ (listing ++ codes ")")))

unfoldable pub enumerated : TextSet → Option Text → Text
unfolding join decimal
enumerated [] listing = []
enumerated (t ∷ ts) listing =
    let n = length (t ∷ ts) in
    if leb n 6 then codes " (known: " ++ (join (t ∷ ts) ++ codes ")") else counted n listing

abbrev pub suggested : List Text → Option Text → Option Text → Suggestion
suggested candidates listing (some close) = record {
  tail = codes " — did you mean `" ++ (close ++ codes "`?");
  nearest = some close;
}
suggested candidates listing none = record {
  tail = enumerated (sorted_known candidates) listing;
  nearest = none;
}

unfoldable pub suggest_or_enumerate : Text → List Text → Option Text → Suggestion
unfolding closest enumerated sorted_known
suggest_or_enumerate input candidates listing =
    suggested candidates listing (closest input candidates)
