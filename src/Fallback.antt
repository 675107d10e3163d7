-- ===== src/Fallback.antt =====
-- gca/providers/fallback.py: failover along a chain of providers. The providers are parameters: each
-- is known by its place in the chain, and their states are one world `W`.
pub mod Resume
pub mod Failover
use generic_coding_agent.Prelude.{
  ℕ, suc, zero, ◌+◌, ◌-◌, min, String, Bool, true, false, not, ◌&&◌, ◌||◌, Option, none, some, List,
  [], ◌∷◌, length, any, if◌then◌else◌,
}
use generic_coding_agent.Prelude.Int.{ℤ, pos, negsuc, pos_part}
use generic_coding_agent.Prelude.Text.{str_eq, is_blank}
use generic_coding_agent.Json.{Json, Fields}

-- What one `complete` of one provider does: a reply, or a `ProviderError`, retryable or not.
pub data Attempt (R : Type 0) : Type 0 where
  replied : R → Attempt R
  failed : Bool → String → Attempt R

pub data ChainError : Type 0 where
  empty_chain : ChainError
  blank_name : ChainError
  repeated_name : ChainError

-- `len(set(names)) != len(names)`
unfoldable pub has_repeats : List String → Bool
has_repeats [] = false
has_repeats (name ∷ names) = any (λ other. str_eq other name) names || has_repeats names

-- The checks of `__init__`.
unfoldable pub check_chain : List String → Option ChainError
check_chain [] = some ChainError.empty_chain
check_chain (name ∷ names) =
    if any is_blank (name ∷ names)
    then some ChainError.blank_name
    else if has_repeats (name ∷ names)
    then some ChainError.repeated_name
    else none

-- `self._chain[index][0]`; the empty text out of range, where an index never is.
unfoldable pub name_at : ℕ → List String → String
name_at index [] = ""
name_at zero (name ∷ names) = name
name_at (suc index) (name ∷ names) = name_at index names

-- The loop over `enumerate(self._chain)`.
unfoldable pub index_of : String → List String → Option ℕ
index_of active [] = none
index_of active (name ∷ names) =
    let rest = index_of active names in
    if str_eq name active then some 0 else elim rest [ none ↦ none | some i ↦ some (suc i) ]

-- `state.get(key)`
unfoldable pub get_field : String → Fields → Option Json
get_field key Fields.end = none
get_field key (Fields.field k v fields) = if str_eq k key then some v else get_field key fields

-- The place that `set_state` takes from a state with wrapper keys.
unfoldable pub restored_index : List String → ℕ → Fields → ℕ
restored_index names index state =
    let by_index : ℕ = elim (get_field "fallback_index" state) [
      | some (Json.int (pos n)) ↦ min n (length names - 1)
      | _ ↦ 0
    ] in
    elim (get_field "active_name" state) [
      | some (Json.str active) ↦
          if str_eq active ""
          then by_index
          else elim (index_of active names) [ none ↦ index | some i ↦ i ]
      | _ ↦ by_index
    ]

unfoldable pub is_wrapped : Fields → Bool
is_wrapped state = elim (get_field "fallback_index" state) [
  | some v ↦ true
  | none ↦ elim (get_field "active_name" state) [
    | some v ↦ true
    | none ↦ elim (get_field "provider_state" state) [ some v ↦ true | none ↦ false ]
  ]
]

-- The chain: its names, and the providers.
pub record Chain : Type 1 where
  pub R : Type 0
  pub W : Type 0
  pub names : List String
  pub complete_at : ℕ → W → Attempt R × W
  pub get_state_at : ℕ → W → Fields
  pub set_state_at : ℕ → Fields → W → W

module _ (chain : Chain) where
  open chain use {R, W, names, complete_at, get_state_at, set_state_at}

  -- What a completion leaves: the reply or the error, the place in the chain, the providers, and the
  -- failovers that were reported, from one name to the next.
  pub record Completed : Type 0 where
    pub attempt : Attempt R
    pub index : ℕ
    pub world : W
    pub failovers : List (String × String)

  -- The loop of `complete`, with the number of providers after the active one.
  unfoldable pub complete_from : ℕ → ℕ → W → Completed
  complete_from zero index w =
      let (attempt, w') = complete_at index w in
      record { attempt = attempt; index = index; world = w'; failovers = [] }
  complete_from (suc left) index w =
      let (attempt, w') = complete_at index w in
      let ended : Completed = record {
        attempt = attempt;
        index = index;
        world = w';
        failovers = [];
      } in
      elim attempt [
        | replied r ↦ ended
        | failed retryable message ↦ elim retryable [
          | false ↦ ended
          | true ↦
              let rest = complete_from left (suc index) w' in
              record rest {
                failovers = (name_at index names, name_at (suc index) names) ∷ rest.failovers;
              }
        ]
      ]

  unfoldable pub complete : ℕ → W → Completed
  complete index w = complete_from (length names - 1 - index) index w

  unfoldable pub get_state : ℕ → W → Fields
  get_state index w = Fields.field "fallback_index" (Json.int (pos index)) (
      Fields.field "active_name" (Json.str (name_at index names))
        (Fields.field "provider_state" (Json.object (get_state_at index w)) Fields.end))

  -- `set_state`: the new place, and the providers after the active one has taken its state.
  unfoldable pub set_state : Json → ℕ → W → ℕ × W
  set_state (Json.object state) index w =
      if not (is_wrapped state)
      then (index, set_state_at index state w)
      else (let i = restored_index names index state in
          elim (get_field "provider_state" state) [
            | none ↦ (i, set_state_at i Fields.end w)
            | some (Json.object inner) ↦ (i, set_state_at i inner w)
            | some _ ↦ (i, w)
          ])
  set_state _ index w = (index, w)
