-- ===== src/Relay/Chains.antt =====
-- src/clients/relay.rs, `RelayChain`, and src/deposit/relay.rs: what is read of Relay's list of chains.
use gum_server.Prelude.{
  ℕ, String, Bool, ◌&&◌, not, Option, none, some, List, [], ◌∷◌, append, ◌==◌, str_eq,
  if◌then◌else◌, any, first, is_some, true, false, sort_by, str_le,
}
use gum_server.Prelude.Ascii.{lower}
use gum_server.Prelude.Text.{hex_address, strip_prefix}
use gum_server.Relay.{RelayRoles}
use gum_server.Relay.Terms.{Parsers}
use gum_server.Relay.DirectTokens.{is_direct}

pub record RelayChainCurrency : Type 0 where
  pub address : String
  pub decimals : ℕ

pub record RelayRouterContracts : Type 0 where
  pub erc20_router : Option String
  pub approval_proxy : Option String

pub record RelayContracts : Type 0 where
  pub relay_receiver : Option String
  pub erc20_router : Option String
  pub approval_proxy : Option String
  pub v3 : Option RelayRouterContracts

pub record RelayProtocolV2 : Type 0 where
  pub depository : Option String
  pub chain_id : Option String

pub record RelayProtocol : Type 0 where
  pub v2 : Option RelayProtocolV2

pub record RelayChain : Type 0 where
  pub id : ℕ
  pub name : String
  pub display_name : String
  pub vm_type : String
  pub disabled : Bool
  pub deposit_enabled : Bool
  pub http_rpc_url : String
  pub currency : Option RelayChainCurrency
  pub featured_tokens : List RelayChainCurrency
  pub erc20_currencies : List RelayChainCurrency
  pub solver_currencies : List RelayChainCurrency
  pub contracts : Option RelayContracts
  pub protocol : Option RelayProtocol

abbrev pub and_then {ℓ κ} : {A : Type ℓ} {B : Type κ} → Option A → (A → Option B) → Option B
and_then none f = none
and_then (some a) f = f a

abbrev pub one {ℓ} : {A : Type ℓ} → Option A → List A
one none = []
one (some a) = a ∷ []

abbrev pub nonzero : Option ℕ → Option ℕ
nonzero none = none
nonzero (some a) = if a == 0 then none else some a

-- `Vec::dedup`: of equal neighbours the first is kept.
abbrev pub dedup_after {ℓ} : {A : Type ℓ} → (A → A → Bool) → A → List A → List A
dedup_after eq x [] = []
dedup_after eq x (y ∷ ys) = elim (eq x y) [
  | true ↦ dedup_after eq x ys
  | false ↦ y ∷ dedup_after eq y ys
]

abbrev pub dedup {ℓ} : {A : Type ℓ} → (A → A → Bool) → List A → List A
dedup eq [] = []
dedup eq (x ∷ xs) = x ∷ dedup_after eq x xs

-- `list.sort(); list.dedup();` of addresses and of names.
abbrev pub distinct_addresses : List ℕ → List ℕ
distinct_addresses list = dedup (λ a b. a == b) (sort_by (λ a. a) list)

abbrev insert_name : String → List String → List String
insert_name n [] = n ∷ []
insert_name n (m ∷ ms) = if str_le n m then n ∷ m ∷ ms else m ∷ insert_name n ms

abbrev sort_names : List String → List String
sort_names [] = []
sort_names (n ∷ ns) = insert_name n (sort_names ns)

abbrev pub distinct_names : List String → List String
distinct_names ns = dedup str_eq (sort_names ns)

module _ (px : Parsers) where
  -- `raw.and_then(|a| a.parse().ok().filter(|a| !a.is_zero()))`
  abbrev pub role_address : Option String → List ℕ
  role_address raw = one (nonzero (and_then raw px.address))

  unfoldable pub relay_roles : RelayChain → RelayRoles
  relay_roles c = record {
    depositories =
        distinct_addresses
          (role_address (and_then (and_then c.protocol λ p. p.v2) λ v. v.depository));
    approval_proxies = distinct_addresses (
        append (role_address (and_then c.contracts λ k. k.approval_proxy))
          (role_address (and_then (and_then c.contracts λ k. k.v3) λ v. v.approval_proxy)));
    receivers = distinct_addresses (role_address (and_then c.contracts λ k. k.relay_receiver));
    routers = distinct_addresses (
        append (role_address (and_then c.contracts λ k. k.erc20_router))
          (role_address (and_then (and_then c.contracts λ k. k.v3) λ v. v.erc20_router)));
  }

-- An EVM chain that Relay routes from.
unfoldable pub usable : RelayChain → Bool
unfolding strip_prefix
usable c =
    str_eq c.vm_type "evm" && not c.disabled && is_some (strip_prefix "https://" c.http_rpc_url)

unfoldable pub can_receive : List RelayChain → ℕ → Bool
can_receive chains id =
    any (λ c. c.id == id && str_eq c.vm_type "evm" && not c.disabled && c.deposit_enabled) chains

abbrev pub lists_address : String → List RelayChainCurrency → Bool
lists_address address = any (λ t. str_eq (lower t.address) (lower address))

unfoldable pub pays_directly : RelayChain → String → Bool
unfolding is_direct lower
pays_directly c address = is_direct c.id address && lists_address address c.solver_currencies

unfoldable pub chain_names : RelayChain → List String
unfolding lower
chain_names c = distinct_names (
    append (lower c.name ∷ (if str_eq c.display_name "" then [] else lower c.display_name ∷ [])) (
      one
        (and_then (and_then (and_then c.protocol λ p. p.v2) λ v. v.chain_id) λ n. some (lower n))))

-- The decimals of the native currency, or of the first listing.
unfoldable pub chain_token_decimals : RelayChain → ℕ → Option ℕ
unfolding lower hex_address
chain_token_decimals c currency =
    if currency == 0
    then and_then c.currency (λ n. some n.decimals)
    else and_then
        (first (λ t. str_eq (lower t.address) (lower (hex_address currency)))
          (append c.featured_tokens (append c.erc20_currencies c.solver_currencies)))
        (λ t. some t.decimals)
