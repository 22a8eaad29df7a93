-- ===== src/Keys/Accepted.antt =====
-- Which tokens the server accepts.
use rollpig_cloud.Base.{
  ◌≡◌, refl, sym, ap, ◌∙◌, ◌⊎◌, inl, inr, Bool, true, false, not, ◌&&◌, ◌||◌, some, List, [], ◌∷◌,
  ◌++◌, any, find, is_some, arith, Bool-cases, Option-cases, any-append_one, any-is_some,
}
use rollpig_cloud.Keys.{
  Text, text_eq, strip, split_commas, is_blank, ApiKeyIdentity, KeyError, Setting, valid, raised,
  RawToken, text, not_text, NamedKeys, unset, invalid, other_value, object, normalize_key_name,
  token_of, Identities, has_token, add_named, add_legacy, named_identities, parse_api_keys, Access,
  granted, is_bearer, verify_token,
}

text_eq→≡ : (a b : Text) → text_eq a b ≡ true → a ≡ b
text_eq→≡ [] [] h = refl
text_eq→≡ [] (d ∷ ds) h = absurd (cc)
text_eq→≡ (c ∷ cs) [] h = absurd (cc)
text_eq→≡ (c ∷ cs) (d ∷ ds) h = ground (arith, text_eq→≡ cs ds)

Setting-cases :
    {A : Type 0} (setting : Setting A)
    → ((why : KeyError) × (setting ≡ raised why)) ⊎ ((value : A) × (setting ≡ valid value))
Setting-cases (raised why) = inl (why, refl)
Setting-cases (valid value) = inr (value, refl)

-- A token of the configuration: of a named key, and of the old list.
abbrev pub is_named : Text → Text × RawToken → Bool
is_named t (name, text raw) = text_eq t (strip raw)
is_named t (name, not_text) = false

abbrev pub is_legacy : Text → Text → Bool
is_legacy t raw = text_eq t (strip raw) && not (is_blank (strip raw))

abbrev pub entries_of : NamedKeys → List (Text × RawToken)
entries_of unset = []
entries_of invalid = []
entries_of other_value = []
entries_of (object entries) = entries

has-same :
    (t u : Text) (ids : Identities)
    → text_eq t u ≡ true
    → any (has_token t) ids ≡ any (has_token u) ids
has-same t u ids h = ap (λ z. any (has_token z) ids) (text_eq→≡ t u h)

module _ (key_id : Text → Text) where
  add_legacy-has :
      (t : Text) (raws : List Text) (ids : Identities)
      → any (has_token t) (add_legacy key_id raws ids)
        ≡ (any (has_token t) ids || any (is_legacy t) raws)
  unfolding add_legacy
  add_legacy-has t [] ids = ground arith
  add_legacy-has t (raw ∷ raws) ids =
      let token = strip raw in
      elim (Bool-cases (is_blank token || any (has_token token) ids)) [
        | inl skipped ↦
            rw skipped (add_legacy-has t raws ids ∙ ground (arith, has-same t token ids))
        | inr new ↦ rw new (
            add_legacy-has t raws _
            ∙ ground (
              arith,
              any-append_one (has_token t) ids
                  (token, record { key_id = key_id token; name = key_id token }),
            ))
      ]

  token-named :
      (t : Text) (entry : Text × RawToken) (token : Text)
      → token_of entry.1 ≡ valid token
      → is_named t entry ≡ text_eq t token
  token-named t (name, text raw) token h = elim (Bool-cases (is_blank (strip raw))) [
    | inl blank ↦ absurd (cc (rw blank at h))
    | inr there ↦
        let same : valid (strip raw) ≡ valid token = rw there at h in
        let is : strip raw ≡ token = cc in ap (text_eq t) is
  ]
  token-named t (name, not_text) token h = absurd (cc)

  add_named-has :
      (t : Text) (entries : List (Text × RawToken)) (ids ids' : Identities)
      → add_named key_id entries ids ≡ valid ids'
      → any (has_token t) ids' ≡ (any (has_token t) ids || any (is_named t) entries)
  unfolding add_named
  add_named-has t [] ids ids' h =
      let same : ids ≡ ids' = cc in ap (any (has_token t)) (sym same) ∙ ground arith
  add_named-has t (entry ∷ entries) ids ids' h = elim (Setting-cases (normalize_key_name entry.0)) [
    | inl (why, bad) ↦ absurd (cc (rw (bad, add_named) at h))
    | inr (name, named) ↦ elim (Setting-cases (token_of entry.1)) [
      | inl (why, bad) ↦ absurd (cc (rw (named, bad, add_named) at h))
      | inr (token, read) ↦
          let new : Text × ApiKeyIdentity =
            (token, record { key_id = key_id token; name = name }) in
          elim (Bool-cases (any (has_token token) ids)) [
            | inl repeated ↦ absurd (cc (rw (named, read, repeated, add_named) at h))
            | inr first ↦
                let rest : add_named key_id entries (ids ++ new ∷ []) ≡ valid ids' =
                  rw (named, read, first, add_named) at h in
                add_named-has t entries (ids ++ new ∷ []) ids' rest
                ∙ ground
                    (arith, any-append_one (has_token t) ids new, token-named t entry token read)
          ]
    ]
  ]

  named-has :
      (t : Text) (named : NamedKeys) (ids : Identities)
      → named_identities key_id named ≡ valid ids
      → any (has_token t) ids ≡ any (is_named t) (entries_of named)
  unfolding named_identities
  named-has t unset ids h = let same : [] ≡ ids = cc in ap (any (has_token t)) (sym same)
  named-has t invalid ids h = absurd (cc)
  named-has t other_value ids h = absurd (cc)
  named-has t (object entries) ids h = add_named-has t entries [] ids h

  -- The identities of a configuration, by the tokens that it names.
  parse-has :
      (t : Text) (named : NamedKeys) (legacy : Text) (ids : Identities)
      → parse_api_keys key_id named legacy ≡ valid ids
      → any (has_token t) ids
        ≡ (any (is_named t) (entries_of named) || any (is_legacy t) (split_commas legacy))
  unfolding parse_api_keys
  parse-has t named legacy ids h = elim (Setting-cases (named_identities key_id named)) [
    | inl (why, bad) ↦ absurd (cc (rw (bad, parse_api_keys) at h))
    | inr (first, e) ↦
        let all : valid (add_legacy key_id (split_commas legacy) first) ≡ valid ids =
          rw (e, parse_api_keys) at h in
        let same : add_legacy key_id (split_commas legacy) first ≡ ids = cc in
        ap (any (has_token t)) (sym same)
        ∙ add_legacy-has t (split_commas legacy) first
        ∙ ap (λ b. b || any (is_legacy t) (split_commas legacy)) (named-has t named first e)
  ]

abbrev pub is_granted : Access → Bool
is_granted (granted identity) = true
is_granted _ = false

granted-has :
    (scheme t : Text) (ids : Identities)
    → is_bearer scheme ≡ true
    → is_granted (verify_token ids (some (scheme, t))) ≡ any (has_token t) ids
unfolding verify_token
granted-has scheme t [] h = refl
granted-has scheme t (entry ∷ ids) h =
    rw (h, verify_token)
      (elim (Option-cases (find (has_token t) (entry ∷ ids))) [
        | inl e ↦ rw e (sym (any-is_some (has_token t) (entry ∷ ids) ∙ ap is_some e))
        | inr (a, e) ↦ rw e (sym (any-is_some (has_token t) (entry ∷ ids) ∙ ap is_some e))
      ])

-- The server accepts exactly the tokens of its configuration: with a Bearer scheme, a token is
-- granted if and only if it equals the token of a named key or a token of the old list that is not
-- blank, each as it is without the white space around it. The configuration was read without an
-- error.
pub verify_token-configured :
    (key_id : Text → Text) (named : NamedKeys) (legacy scheme t : Text) (ids : Identities)
    → parse_api_keys key_id named legacy ≡ valid ids
    → is_bearer scheme ≡ true
    → is_granted (verify_token ids (some (scheme, t)))
      ≡ (any (is_named t) (entries_of named) || any (is_legacy t) (split_commas legacy))
verify_token-configured key_id named legacy scheme t ids h bearer =
    granted-has scheme t ids bearer ∙ parse-has key_id t named legacy ids h
