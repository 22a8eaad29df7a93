-- ===== src/Keys.antt =====
-- config.py and auth.py: the keys that the server accepts. Texts are lists of code points here.
use rollpig_cloud.Base.{
  ℕ, suc, ◌+◌, Bool, true, false, not, ◌&&◌, ◌||◌, Option, none, some, List, [], ◌∷◌, ◌++◌, map,
  ltb, leb, ◌==◌, if◌then◌else◌, any, find, length, is_some,
}
pub mod Accepted

abbrev pub Text : Type 0
Text = List ℕ

abbrev pub text_eq : Text → Text → Bool
text_eq [] [] = true
text_eq [] (d ∷ ds) = false
text_eq (c ∷ cs) [] = false
text_eq (c ∷ cs) (d ∷ ds) = c == d && text_eq cs ds

-- `str.isspace` of a character
abbrev is_space : ℕ → Bool
is_space c =
    (leb 9 c && leb c 13)
    || (leb 28 c && leb c 32)
    || c == 133
    || c == 160
    || c == 5760
    || (leb 8192 c && leb c 8202)
    || c == 8232
    || c == 8233
    || c == 8239
    || c == 8287
    || c == 12288

strip_left : Text → Text
strip_left [] = []
strip_left (c ∷ cs) = if is_space c then strip_left cs else c ∷ cs

abbrev drop_space : ℕ → Text → Text
drop_space c [] = if is_space c then [] else c ∷ []
drop_space c (d ∷ ds) = c ∷ d ∷ ds

strip_right : Text → Text
strip_right [] = []
strip_right (c ∷ cs) = drop_space c (strip_right cs)

-- `text.strip()`
pub strip : Text → Text
unfolding strip_left strip_right
strip text = strip_left (strip_right text)

abbrev to_first : ℕ → List Text → List Text
to_first c [] = (c ∷ []) ∷ []
to_first c (word ∷ words) = (c ∷ word) ∷ words

-- `text.split(",")`
pub split_commas : Text → List Text
split_commas [] = [] ∷ []
split_commas (c ∷ cs) =
    let rest = split_commas cs in if c == b',' then [] ∷ rest else to_first c rest

abbrev pub is_blank : Text → Bool
is_blank [] = true
is_blank (c ∷ cs) = false

pub record ApiKeyIdentity : Type 0 where
  pub key_id : Text
  pub name : Text

pub data KeyError : Type 0 where
  not_json not_an_object empty_name long_name control_character empty_token repeated_token :
      KeyError

-- What a part of the configuration is read as; an raised ends the reading.
pub data Setting (A : Type 0) : Type 0 where
  raised : KeyError → Setting A
  valid : A → Setting A

infixl 5 ◌>>=◌
abbrev pub ◌>>=◌ : {A B : Type 0} → Setting A → (A → Setting B) → Setting B
setting >>= next = elim setting [ raised why ↦ raised why | valid value ↦ next value ]

-- A value of the JSON object: a text, or something else.
pub data RawToken : Type 0 where
  text : Text → RawToken
  not_text : RawToken

-- What `json.loads` makes of the setting of the named keys.
pub data NamedKeys : Type 0 where
  unset invalid other_value : NamedKeys
  object : List (Text × RawToken) → NamedKeys

abbrev key_name_max_length : ℕ
key_name_max_length = 64

-- `_normalize_key_name`
pub normalize_key_name : Text → Setting Text
unfolding strip
normalize_key_name value =
    let name = strip value in
    if is_blank name
    then raised empty_name
    else if ltb key_name_max_length (length name)
    then raised long_name
    else if any (λ c. ltb c 32) name
    then raised control_character
    else valid name

-- The stripped token, if there is one.
abbrev pub token_of : RawToken → Setting Text
token_of (text t) = if is_blank (strip t) then raised empty_token else valid (strip t)
token_of not_text = raised empty_token

abbrev pub Identities : Type 0
Identities = List (Text × ApiKeyIdentity)

abbrev pub has_token : Text → Text × ApiKeyIdentity → Bool
has_token token entry = text_eq token entry.0

-- `_token_key_id` is `key_id`, a digest of the token.
module _ (key_id : Text → Text) where
  -- The loop over the named keys.
  unfoldable pub add_named : List (Text × RawToken) → Identities → Setting Identities
  unfolding normalize_key_name
  add_named [] ids = valid ids
  add_named (entry ∷ entries) ids = do
    name ← normalize_key_name entry.0
    token ← token_of entry.1
    let rest =
        add_named entries (ids ++ (token, record { key_id = key_id token; name = name }) ∷ [])
    if any (has_token token) ids then raised repeated_token else rest

  -- The loop over the old list; its keys are named by their digest.
  unfoldable pub add_legacy : List Text → Identities → Identities
  add_legacy [] ids = ids
  add_legacy (raw ∷ raws) ids =
      let token = strip raw in
      add_legacy raws (
        if is_blank token || any (has_token token) ids
        then ids
        else ids ++ (token, record { key_id = key_id token; name = key_id token }) ∷ [])

  pub named_identities : NamedKeys → Setting Identities
  unfolding add_named
  named_identities unset = valid []
  named_identities invalid = raised not_json
  named_identities other_value = raised not_an_object
  named_identities (object entries) = add_named entries []

  unfoldable pub parse_api_keys : NamedKeys → Text → Setting Identities
  unfolding named_identities add_legacy split_commas
  parse_api_keys named legacy = do
    ids ← named_identities named
    valid (add_legacy (split_commas legacy) ids)

pub data Access : Type 0 where
  no_keys missing_bearer invalid_token : Access
  granted : ApiKeyIdentity → Access

-- `scheme.lower() == "bearer"`, for the letters of ASCII.
abbrev pub is_bearer : Text → Bool
is_bearer scheme =
    text_eq (map (λ c. if leb b'A' c && leb c b'Z' then c + 32 else c) scheme)
      (98 ∷ 101 ∷ 97 ∷ 114 ∷ 101 ∷ 114 ∷ [])

abbrev identity_in : Option (Text × ApiKeyIdentity) → Access
identity_in none = invalid_token
identity_in (some entry) = granted entry.1

-- `verify_token`; the credentials are a scheme and a token.
pub verify_token : Identities → Option (Text × Text) → Access
verify_token [] credentials = no_keys
verify_token (entry ∷ ids) none = missing_bearer
verify_token (entry ∷ ids) (some (scheme, token)) =
    if is_bearer scheme then identity_in (find (has_token token) (entry ∷ ids)) else missing_bearer
