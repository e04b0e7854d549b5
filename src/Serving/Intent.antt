-- ===== src/Serving/Intent.antt =====
-- serving/internal/intent/classifier.go: a question is put into one of five archetypes by keywords.
use fun_project.Common.{String, Bool, false, ◌||◌, List, [], ◌∷◌, if◌then◌else◌, lowered, contains}
use fun_project.Storage.Schema.Float.{Float64}

pub data Archetype : Type 0 where
  structural : Archetype
  runtime : Archetype
  temporal : Archetype
  impact : Archetype
  governance : Archetype

-- EntityName and Depth are never set.
pub record Classification : Type 0 where
  pub archetype : Archetype
  pub confidence : Float64

unfoldable pub has_any : String → List String → Bool
unfolding contains
has_any s [] = false
has_any s (n ∷ ns) = contains s n || has_any s ns

abbrev pub governance_words : List String
governance_words =
    "circular" ∷ "cycle" ∷ "supernode" ∷ "hub-and-spoke" ∷ "smell" ∷ "audit" ∷ "health" ∷ []

abbrev pub impact_words : List String
impact_words =
    "blast radius" ∷ "what breaks" ∷ "what would break" ∷ "impact of" ∷ "if i delete"
    ∷ "if we delete" ∷ "if i remove" ∷ []

abbrev pub temporal_words : List String
temporal_words =
    "change" ∷ "evolution" ∷ "history" ∷ "diff" ∷ "between commit" ∷ "since " ∷ "last month"
    ∷ "last week" ∷ "past month" ∷ "yesterday" ∷ " ago" ∷ []

abbrev pub runtime_words : List String
runtime_words = "latency" ∷ "slow" ∷ "slowest" ∷ "p99" ∷ "p50" ∷ "error rate" ∷ "throughput" ∷ []

-- 0.9, 0.8 and 0.6
abbrev pub classification : Archetype → Classification
classification governance = record { archetype = governance; confidence = 0x3feccccccccccccd }
classification impact = record { archetype = impact; confidence = 0x3feccccccccccccd }
classification temporal = record { archetype = temporal; confidence = 0x3fe999999999999a }
classification runtime = record { archetype = runtime; confidence = 0x3fe999999999999a }
classification structural = record { archetype = structural; confidence = 0x3fe3333333333333 }

unfoldable pub archetype_of : String → Archetype
unfolding has_any
archetype_of q =
    if has_any q governance_words
    then governance
    else (if has_any q impact_words
        then impact
        else (if has_any q temporal_words
            then temporal
            else (if has_any q runtime_words then runtime else structural)))

unfoldable pub classify : String → Classification
unfolding archetype_of lowered
classify question = classification (archetype_of (lowered question))
