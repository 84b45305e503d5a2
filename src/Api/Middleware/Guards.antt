-- ===== src/Api/Middleware/Guards.antt =====
-- What the CSRF check and the model scope of a key let through.
use godwit.Base.{
  ℕ, zero, suc, ◌≡◌, ◌↔◌, ◌⊎◌, inl, inr, refl, ap, Bool, true, false, Bool-cases, ◌||◌, String,
  string_key, ◌==◌, empty_text_iff, is_empty, Option, none, some, List, [], ◌∷◌, get_elem?,
  if◌then◌else◌, arith,
}
use mathlib.Core.Path.{subst}
use mathlib.Core.Option.{some-injective}
use godwit.Api.Middleware.{
  Method, is_state_changing, origin_allowed_from_config, admitted, rejected, forbidden, cookie_csrf,
  scope_of, ApiKey, listed, is_model_allowed, model_scope,
}

-- Whether a request may change state: no origin is configured, the method changes nothing, or the
-- origin is the configured one.
abbrev pub MayPass : String → Method → Option String → Type 0
MayPass allowed method origin =
    (allowed ≡ "") ⊎ ((is_state_changing method ≡ false) ⊎ (origin ≡ some allowed))

origin_allowed_iff :
    (allowed : String) (method : Method) (origin : Option String)
    → (origin_allowed_from_config allowed method origin ≡ true) ↔ MayPass allowed method origin
unfolding origin_allowed_from_config
origin_allowed_iff allowed method none = ground (arith, empty_text_iff allowed)
origin_allowed_iff allowed method (some o) =
    ground (arith, empty_text_iff allowed, string_key.same_iff o allowed)

-- The CSRF check passes a request exactly if no origin is configured, its method changes nothing, or
-- its origin is the configured one; it answers the others with 403.
pub cookie_csrf_iff :
    (allowed : String) (method : Method) (origin : Option String)
    → ((cookie_csrf allowed method origin ≡ admitted tt) ↔ MayPass allowed method origin)
      × ((cookie_csrf allowed method origin ≡ rejected forbidden)
          ↔ (¬ MayPass allowed method origin))
unfolding cookie_csrf
cookie_csrf_iff allowed method origin =
    go (origin_allowed_from_config allowed method origin) (origin_allowed_iff allowed method origin)
  where
    go :
        (b : Bool)
        → (b ≡ true) ↔ MayPass allowed method origin
        → (((if b then admitted tt else rejected forbidden) ≡ admitted tt)
            ↔ MayPass allowed method origin)
          × (((if b then admitted tt else rejected forbidden) ≡ rejected forbidden)
              ↔ (¬ MayPass allowed method origin))
    go true (to, from) = ((λ e. to refl, λ p. refl), (λ e. cc, λ n. absurd (n (to refl))))
    go false (to, from) = ((λ e. cc, λ p. cc (from p)), (λ e p. cc (from p), λ n. refl))

listed-found :
    (models : List String) (model : String)
    → listed models model ≡ true
    → (i : ℕ) × (get_elem? models i ≡ some model)
unfolding listed
listed-found [] model h = cc
listed-found (m ∷ ms) model h = elim (Bool-cases (m == model)) [
  | inl same ↦ (0, ap some ((string_key.same_iff m model).0 same))
  | inr other ↦ let (i, e) = listed-found ms model (ground (arith, h, other)) in (suc i, e)
]

found-listed :
    (models : List String) (model : String) (i : ℕ)
    → get_elem? models i ≡ some model
    → listed models model ≡ true
unfolding listed
found-listed [] model i e = cc
found-listed (m ∷ ms) model zero e =
    ground (arith, (string_key.same_iff m model).1 (some-injective m model e))
found-listed (m ∷ ms) model (suc i) e = ground (arith, found-listed ms model i e)

-- The models that the scope of a key allows: all, if none is listed.
abbrev pub InScope : ApiKey → String → Type 0
InScope key model =
    (key.allowed_models ≡ []) ⊎ ((i : ℕ) × (get_elem? key.allowed_models i ≡ some model))

is_model_allowed_iff :
    (key : ApiKey) (model : String) → (is_model_allowed key model ≡ true) ↔ InScope key model
unfolding is_model_allowed
is_model_allowed_iff key model = go key.allowed_models (
  λ h. listed-found key.allowed_models model h,
  λ p. found-listed key.allowed_models model p.0 p.1,
)
  where
    go :
        (ms : List String)
        → (listed ms model ≡ true) ↔ ((i : ℕ) × (get_elem? ms i ≡ some model))
        → ((is_empty ms || listed ms model) ≡ true)
          ↔ ((ms ≡ []) ⊎ ((i : ℕ) × (get_elem? ms i ≡ some model)))
    go [] h = (λ e. inl refl, λ e. refl)
    go (m ∷ ms) (to, from) = (λ e. inr (to e), λ p. elim p [ inl e ↦ cc | inr q ↦ from q ])

-- A request with a model in its body passes the model scope exactly if the key allows that model, and
-- is answered with 403 if not; a request without one passes.
pub model_scope_iff :
    {Body : Type 0} (extract_model_from_body : Body → Option String) (key : ApiKey) (body : Body)
    → (model_scope extract_model_from_body key body ≡ admitted tt)
      ↔ ((model : String) → extract_model_from_body body ≡ some model → InScope key model)
unfolding model_scope
model_scope_iff extract_model_from_body key body = go (extract_model_from_body body)
  where
    go :
        (found : Option String)
        → (scope_of found key ≡ admitted tt)
          ↔ ((model : String) → found ≡ some model → InScope key model)
    go none = (λ e model h. cc, λ h. refl)
    go (some m) = go_bool (is_model_allowed key m) (is_model_allowed_iff key m)
      where
        go_bool :
            (b : Bool)
            → (b ≡ true) ↔ InScope key m
            → ((if b then admitted tt else rejected forbidden) ≡ admitted tt)
              ↔ ((model : String) → some m ≡ some model → InScope key model)
        go_bool true (to, from) =
            (λ e model h. subst (InScope key) (some-injective m model h) (to refl), λ h. refl)
        go_bool false (to, from) = (λ e. cc, λ h. cc (from (h m refl)))
