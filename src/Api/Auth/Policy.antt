-- ===== src/Api/Auth/Policy.antt =====
-- Which requests a trigger's policy lets through.
use z8run.Base.{
  ℕ, String, false, Option, none, some, List, [], str_eq, eq_iff, some_inv, ◌≡◌, ◌⊎◌, ◌↔◌, refl,
  sym, ap, ◌∙◌, Bool-cases, inl, inr,
}
use z8run.Json.{Value}
use z8run.Error.{Uuid}
use z8run.Nodes.{is_empty_text}
use z8run.Api.{ApiError, index, str_of, unwrap_or, strip_prefix}
use z8run.Api.Canvas.{Vault}
use z8run.Api.Auth.{
  Verdict, accepted, rejected, HookAuthError, Headers, Crypto, ct_eq, compared, bytes_of, decoded,
  signed, scheme, signature, verify_hook_auth, response_of, secret, checked, by_type,
  authorize_trigger,
}
use z8run.Api.Auth.Bytes.{ct_eq_iff}

module _ (lib : Crypto) where
  -- What a request shows when it knows the secret of a trigger.
  pub data Proves (expected : String) (headers : Headers) (body : String)
      : (auth_type : String) → Type 0 where
    bearer :
        (token : String)
        → scheme lib "Bearer " "bearer " headers ≡ some token
        → lib.bytes token ≡ lib.bytes expected
        → Proves expected headers body "bearer"
    basic :
        (b64 : String)
        → scheme lib "Basic " "basic " headers ≡ some b64
        → lib.base64_decode b64 ≡ some (lib.bytes expected)
        → Proves expected headers body "basic"
    hmac :
        (mac : List ℕ)
        → lib.hmac expected body ≡ some mac
        → unwrap_or [] (lib.hex_decode (signature lib headers)) ≡ mac
        → Proves expected headers body "hmac"

  compared_accepts :
      (given : Option (List ℕ)) (expected : List ℕ) (message : String)
      → (compared lib given expected message ≡ accepted) ↔ (given ≡ some expected)
  compared_accepts none expected message = (λ h. cc, λ h. cc)
  compared_accepts (some given) expected message = elim (Bool-cases (ct_eq given expected)) [
    | inl e ↦ rw e (λ h. ap some ((ct_eq_iff given expected).0 e), λ h. refl)
    | inr e ↦ rw e (λ h. cc, λ h. let no = (ct_eq_iff given expected).1 (some_inv h) in cc)
  ]

  signed_accepts :
      (mac : Option (List ℕ)) (provided : String)
      → (signed lib mac provided ≡ accepted) ↔ (mac ≡ some (unwrap_or [] (lib.hex_decode provided)))
  signed_accepts none provided = (λ h. cc, λ h. cc)
  signed_accepts (some m) provided =
      let given = unwrap_or [] (lib.hex_decode provided) in
      elim (Bool-cases (ct_eq given m)) [
        | inl e ↦ rw e (λ h. ap some (sym ((ct_eq_iff given m).0 e)), λ h. refl)
        | inr e ↦ rw e (λ h. cc, λ h. let no = (ct_eq_iff given m).1 (sym (some_inv h)) in cc)
      ]

  -- A text that is given, decoded.
  shown_bytes :
      (t : Option String) (expected : List ℕ)
      → bytes_of lib t ≡ some expected
      → (token : String) × (t ≡ some token) × (lib.bytes token ≡ expected)
  shown_bytes none expected e = cc
  shown_bytes (some token) expected e = (token, refl, some_inv e)

  shown_decoded :
      (t : Option String) (expected : List ℕ)
      → decoded lib t ≡ some expected
      → (b64 : String) × (t ≡ some b64) × (lib.base64_decode b64 ≡ some expected)
  shown_decoded none expected e = cc
  shown_decoded (some b64) expected e = (b64, refl, e)

  -- The policy of a trigger with a secret.
  abbrev pub Allowed : (auth_type expected : String) → Headers → (body : String) → Type 0
  Allowed auth_type expected headers body =
      (auth_type ≡ "none")
      ⊎ ((is_empty_text expected ≡ false) × Proves expected headers body auth_type)

  allowed :
      (auth_type expected : String) (headers : Headers) (body : String)
      → verify_hook_auth lib auth_type expected headers body ≡ accepted
      → Allowed auth_type expected headers body
  unfolding verify_hook_auth
  allowed auth_type expected headers body h = elim (Bool-cases (str_eq auth_type "none")) [
    | inl a ↦ inl ((eq_iff auth_type "none").0 a)
    | inr a ↦ elim (Bool-cases (is_empty_text expected)) [
      | inl b ↦ let no = rw (a, b, verify_hook_auth) at h in cc
      | inr b ↦ elim (Bool-cases (str_eq auth_type "bearer")) [
        | inl d ↦
            let passed = (compared_accepts _ _ _).0 (rw (a, b, d, verify_hook_auth) at h) in
            let (token, sent, same) = shown_bytes _ _ passed in
            inr (b, rw ((eq_iff auth_type "bearer").0 d) (bearer token sent same))
        | inr d ↦ elim (Bool-cases (str_eq auth_type "basic")) [
          | inl f ↦
              let passed = (compared_accepts _ _ _).0 (rw (a, b, d, f, verify_hook_auth) at h) in
              let (b64, sent, same) = shown_decoded _ _ passed in
              inr (b, rw ((eq_iff auth_type "basic").0 f) (basic b64 sent same))
          | inr f ↦ elim (Bool-cases (str_eq auth_type "hmac")) [
            | inl g ↦
                let passed = (signed_accepts _ _).0 (rw (a, b, d, f, g, verify_hook_auth) at h) in
                inr (b, rw ((eq_iff auth_type "hmac").0 g) (hmac _ passed refl))
            | inr g ↦ let no = rw (a, b, d, f, g, verify_hook_auth) at h in cc
          ]
        ]
      ]
    ]
  ]

  accepts :
      (auth_type expected : String) (headers : Headers) (body : String)
      → is_empty_text expected ≡ false
      → Proves expected headers body auth_type
      → verify_hook_auth lib auth_type expected headers body ≡ accepted
  unfolding verify_hook_auth
  accepts auth_type expected headers body b (bearer token sent same) =
      let given = ap (bytes_of lib) sent ∙ ap some same in
      rw (b, verify_hook_auth)
        ((compared_accepts (bytes_of lib (scheme lib "Bearer " "bearer " headers))
            (lib.bytes expected) "Unauthorized: invalid or missing Bearer token").1
          given)
  accepts auth_type expected headers body b (basic b64 sent same) =
      let given = ap (decoded lib) sent ∙ same in
      rw (b, verify_hook_auth)
        ((compared_accepts (decoded lib (scheme lib "Basic " "basic " headers)) (lib.bytes expected)
            "Unauthorized: invalid or missing Basic credentials").1
          given)
  accepts auth_type expected headers body b (hmac mac key same) =
      rw (b, verify_hook_auth)
        ((signed_accepts (lib.hmac expected body) (signature lib headers)).1
          (key ∙ ap some (sym same)))

  -- How a trigger is configured.
  abbrev pub policy : Value → String
  policy config = unwrap_or "none" (str_of (index config "authType"))

  -- A trigger without a policy: its type is none, is missing, or is not a text.
  abbrev pub IsOpen : Value → Type 0
  IsOpen config =
      (str_of (index config "authType") ≡ some "none") ⊎ (str_of (index config "authType") ≡ none)

  open_iff : (o : Option String) → (unwrap_or "none" o ≡ "none") ↔ ((o ≡ some "none") ⊎ (o ≡ none))
  open_iff none = (λ h. inr refl, λ h. refl)
  open_iff (some auth_type) =
      (λ h. inl (ap some h), λ h. elim h [ inl e ↦ some_inv e | inr e ↦ cc ])

  abbrev pub token : Value → String
  token config = unwrap_or "" (str_of (index config "authToken"))

  -- The secret of a trigger, from its configuration or from the vault of the owner.
  abbrev pub secret_for : Value → Uuid → Vault → Option String
  secret_for config owner_id vault =
      secret lib (token config) (strip_prefix "vault:" (token config)) (vault owner_id)

  abbrev pub Authorized : Value → Headers → (body : String) → Uuid → Vault → Type 0
  Authorized config headers body owner_id vault =
      IsOpen config
      ⊎ ((expected : String) × (secret_for config owner_id vault ≡ some expected)
          × (is_empty_text expected ≡ false)
          × Proves expected headers body (policy config))

  response_none : (v : Verdict) → response_of lib v ≡ none → v ≡ accepted
  response_none accepted h = refl
  response_none (rejected (HookAuthError.unauthorized m)) h = cc
  response_none (rejected (HookAuthError.misconfigured m)) h = cc

  checked-none :
      (o : Option String) (auth_type : String) (headers : Headers) (body : String)
      → checked lib o auth_type headers body ≡ none
      → str_eq auth_type "none" ≡ false
      → (expected : String) × (o ≡ some expected)
        × (is_empty_text expected ≡ false)
        × Proves expected headers body auth_type
  checked-none none auth_type headers body h a = cc
  checked-none (some expected) auth_type headers body h a =
      elim (allowed auth_type expected headers body (response_none _ h)) [
        | inl e ↦ let no = (eq_iff auth_type "none").1 e in cc
        | inr (b, p) ↦ (expected, refl, b, p)
      ]

  by_type-none :
      (auth_type : String) (check : Option ApiError)
      → by_type lib auth_type check ≡ none
      → (auth_type ≡ "none") ⊎ ((str_eq auth_type "none" ≡ false) × (check ≡ none))
  by_type-none auth_type check h = elim (Bool-cases (str_eq auth_type "none")) [
    | inl a ↦ inl ((eq_iff auth_type "none").0 a)
    | inr a ↦ elim (Bool-cases (str_eq auth_type "bearer")) [
      | inl b ↦ inr (a, rw (a, b) at h)
      | inr b ↦ elim (Bool-cases (str_eq auth_type "basic")) [
        | inl d ↦ inr (a, rw (a, b, d) at h)
        | inr d ↦ elim (Bool-cases (str_eq auth_type "hmac")) [
          | inl f ↦ inr (a, rw (a, b, d, f) at h)
          | inr f ↦ let no = rw (a, b, d, f) at h in cc
        ]
      ]
    ]
  ]

  passes :
      (auth_type expected : String) (o : Option String) (headers : Headers) (body : String)
      → o ≡ some expected
      → is_empty_text expected ≡ false
      → Proves expected headers body auth_type
      → by_type lib auth_type (checked lib o auth_type headers body) ≡ none
  passes auth_type expected o headers body e b (bearer t sent same) =
      rw (e, accepts "bearer" expected headers body b (bearer t sent same)) refl
  passes auth_type expected o headers body e b (basic t sent same) =
      rw (e, accepts "basic" expected headers body b (basic t sent same)) refl
  passes auth_type expected o headers body e b (hmac mac key same) =
      rw (e, accepts "hmac" expected headers body b (hmac mac key same)) refl

  -- A request gets through to a trigger just when the trigger has no policy, which is so if the
  -- type of its policy is the text none, is missing or is not a text, or when the trigger has a
  -- secret that is not empty, found in the vault of the flow's owner if it is a reference, and the
  -- request shows that it knows the secret in the way of the policy: as a bearer token, as basic
  -- credentials, or by a signature of its body. A policy whose type is any other text lets nothing
  -- through.
  pub authorize_trigger_iff :
      (config : Value) (headers : Headers) (body : String) (owner_id : Uuid) (vault : Vault)
      → (authorize_trigger lib config headers body owner_id vault ≡ none)
        ↔ Authorized config headers body owner_id vault
  unfolding authorize_trigger
  authorize_trigger_iff config headers body owner_id vault = (
    λ h. elim (by_type-none (policy config) _ h) [
      | inl e ↦ inl ((open_iff (str_of (index config "authType"))).0 e)
      | inr (a, c) ↦
          inr (checked-none (secret_for config owner_id vault) (policy config) headers body c a)
    ],
    λ h. elim h [
      | inl e ↦
          let no_policy = (open_iff (str_of (index config "authType"))).1 e in
          let open_to_all = (eq_iff (policy config) "none").1 no_policy in rw open_to_all refl
      | inr (expected, e, b, p) ↦
          passes (policy config) expected (secret_for config owner_id vault) headers body e b p
    ],
  )
