-- ===== src/Chain/Registry.antt =====
-- src/chain/mod.rs: the chains and tokens that are supported, by id and by name.
use gum_server.Prelude.{
  ℕ, String, Bool, Option, none, some, List, [], ◌∷◌, map, ◌==◌, str_eq, ltb, if◌then◌else◌, first,
  select, not,
}
use gum_server.Prelude.Ascii.{codes, trim, lower, upper, parse_u64}

pub record TokenSpec : Type 0 where
  pub symbol : String
  pub address : ℕ
  pub decimals : ℕ

pub record ChainSpec : Type 0 where
  pub name : String
  pub chain_id : ℕ
  pub enabled : Bool
  pub tokens : List TokenSpec

-- src/config.rs
pub record ChainConfig : Type 0 where
  pub chain_id : ℕ
  pub enabled : Bool
  pub tokens : List TokenSpec

-- Entries by ascending id; the names' order is of no use.
pub record Registry : Type 0 where
  pub by_id : List (ℕ × ChainSpec)
  pub by_name : List (String × ChainSpec)

unfoldable pub insert_id : ℕ → ChainSpec → List (ℕ × ChainSpec) → List (ℕ × ChainSpec)
insert_id k c [] = (k, c) ∷ []
insert_id k c ((j, d) ∷ m) =
    let rest = insert_id k c m in
    if k == j then (k, c) ∷ m else if ltb k j then (k, c) ∷ (j, d) ∷ m else (j, d) ∷ rest

unfoldable pub find_id : ℕ → List (ℕ × ChainSpec) → Option ChainSpec
find_id k [] = none
find_id k ((j, d) ∷ m) = if k == j then some d else find_id k m

unfoldable pub find_name : String → List (String × ChainSpec) → Option ChainSpec
find_name k [] = none
find_name k ((j, d) ∷ m) = if str_eq k j then some d else find_name k m

abbrev token_spec : TokenSpec → TokenSpec
token_spec t = record t { symbol = upper t.symbol }

unfoldable pub chain_spec : String → ChainConfig → ChainSpec
unfolding upper
chain_spec name c = record {
  name = name;
  chain_id = c.chain_id;
  enabled = c.enabled;
  tokens = map token_spec c.tokens;
}

-- `from_config`: a later entry replaces an earlier one with its id or its name.
unfoldable pub register : List (String × ChainConfig) → Registry → Registry
unfolding insert_id chain_spec lower
register [] r = r
register ((name, c) ∷ cs) r = register cs (record {
  by_id = insert_id c.chain_id (chain_spec name c) r.by_id;
  by_name = (lower name, chain_spec name c) ∷ r.by_name;
})

unfoldable pub from_config : List (String × ChainConfig) → Registry
unfolding register
from_config chains = register chains (record { by_id = []; by_name = [] })

unfoldable pub chain_by_id : Registry → ℕ → Option ChainSpec
unfolding find_id
chain_by_id r id = find_id id r.by_id

-- `Registry::chain`: an id or a slug.
unfoldable pub chain : Registry → String → Option ChainSpec
unfolding trim parse_u64 lower find_id find_name
chain r raw = elim (parse_u64 (codes (trim raw))) [
  | some id ↦ find_id id r.by_id
  | none ↦ find_name (lower (trim raw)) r.by_name
]

-- `chain_ids` and `disabled_chain_ids`
unfoldable pub chain_ids : Registry → List ℕ
chain_ids r = map (λ e. e.0) (select (λ e. e.1.enabled) r.by_id)

unfoldable pub disabled_chain_ids : Registry → List ℕ
disabled_chain_ids r = map (λ e. e.0) (select (λ e. not e.1.enabled) r.by_id)

-- `ChainSpec::token`: a contract address or a symbol. The parser of addresses is a library.
unfoldable pub token : (String → Option ℕ) → ChainSpec → String → Option TokenSpec
unfolding trim lower
token parse_address c raw = elim (parse_address (trim raw)) [
  | some address ↦ first (λ t. t.address == address) c.tokens
  | none ↦ first (λ t. str_eq (lower t.symbol) (lower (trim raw))) c.tokens
]
