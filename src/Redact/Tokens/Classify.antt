-- ===== src/Redact/Tokens/Classify.antt =====
-- `classifySecret`: the prefix of a token from the context of a secret and its value.
use troubleshoot.Prelude.{String, Bool, false, none, some, List, [], ◌∷◌, if◌then◌else◌, first}
use troubleshoot.Go.Ascii.{to_lower}
use troubleshoot.Go.Text.{contains}
use troubleshoot.Go.Maps.{Map, lookup}
use troubleshoot.Redact.Tokens.{Library, State}

-- from the more specific to the more general
abbrev pub specific_prefixes : List String
specific_prefixes =
    "APIKEY" ∷ "PASSWORD" ∷ "DATABASE" ∷ "CREDENTIAL" ∷ "SECRET" ∷ "TOKEN" ∷ "KEY" ∷ []

module _ (lib : Library) where
  -- the pattern of the prefix exists and matches
  unfoldable pub fits : Map String → String → String → Bool
  unfolding lookup
  fits patterns text prefix = elim (lookup prefix patterns) [
    | none ↦ false
    | some pattern ↦ lib.match_string pattern text
  ]

  -- the checks of the value, once no pattern fits the context
  unfoldable pub classify_value : State → String → String
  unfolding fits
  classify_value t value =
      if fits t.type_patterns value "EMAIL"
      then "EMAIL"
      else if fits t.type_patterns value "IP"
      then "IP"
      else elim (first (λ prefix. contains (to_lower value) (to_lower prefix)) specific_prefixes) [
        | some prefix ↦ prefix
        | none ↦ t.config.default_prefix
      ]

  unfoldable pub classify_secret : State → String → String → String
  unfolding fits classify_value
  classify_secret t context value =
      elim (first (fits t.type_patterns (to_lower context)) specific_prefixes) [
        | some prefix ↦ prefix
        | none ↦ classify_value t value
      ]
