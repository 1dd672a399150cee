-- ===== src/Profile/Registry/Dispatch.antt =====
-- Which profile a request gets.
use metering_proxy.Common.{
  codes, Bool, String, true, false, ◌≡◌, ◌≢◌, refl, ◌⊎◌, inl, inr, Option, none, some, [], ◌∷◌,
  ◌++◌, Bytes, str_eq, eq_iff, arith, Bool-cases,
}
use metering_proxy.Common.Equal.{bytes_eq-≡, bytes_eq-≢}
use metering_proxy.Profile.{EndpointProfile, path_matches, trim_right_slash, profile_match}
use metering_proxy.Profile.Registry.{
  Registry, new_registry, unknown_passthrough, first_match, fallback, registry_match,
}

-- A path that a profile accepts without its trailing slashes: by the profile's matcher, or as the path
-- of a profile that has none.
pub data PathFits (path : Bytes) (p : EndpointProfile) : Type 0 where
  by_matcher :
      {matcher : Bytes → Bool}
      → p.path_matcher ≡ some matcher
      → matcher (trim_right_slash path) ≡ true
      → PathFits path p
  by_path : p.path_matcher ≡ none → trim_right_slash path ≡ codes p.path_prefix → PathFits path p

pub data PathDiffers (path : Bytes) (p : EndpointProfile) : Type 0 where
  refused :
      {matcher : Bytes → Bool}
      → p.path_matcher ≡ some matcher
      → matcher (trim_right_slash path) ≡ false
      → PathDiffers path p
  other_path :
      p.path_matcher ≡ none → trim_right_slash path ≢ codes p.path_prefix → PathDiffers path p

-- A profile takes a request of its method, or of any method where it names none, and of its path.
pub data Fits (method : String) (path : Bytes) (p : EndpointProfile) : Type 0 where
  fits : (p.method ≡ "") ⊎ (p.method ≡ method) → PathFits path p → Fits method path p

pub data Misfits (method : String) (path : Bytes) (p : EndpointProfile) : Type 0 where
  other_method : p.method ≢ "" → p.method ≢ method → Misfits method path p
  path_differs : PathDiffers path p → Misfits method path p

text_ne : {s t : String} → str_eq s t ≡ false → s ≢ t
text_ne {s} {t} h e = ground (arith, eq_iff s t)

path_matches-cases :
    (p : EndpointProfile) (path : Bytes) (m : Option (Bytes → Bool))
    → p.path_matcher ≡ m
    → (path_matches m p.path_prefix (trim_right_slash path) ≡ true → PathFits path p)
      × (path_matches m p.path_prefix (trim_right_slash path) ≡ false → PathDiffers path p)
unfolding path_matches
path_matches-cases p path (some matcher) e = (λ h. by_matcher e h, λ h. refused e h)
path_matches-cases p path none e =
    (λ h. by_path e (bytes_eq-≡ _ _ h), λ h. other_path e (λ same. bytes_eq-≢ _ _ h same))

profile_match-Fits :
    (p : EndpointProfile) (method : String) (path : Bytes)
    → profile_match p method path ≡ true
    → Fits method path p
unfolding profile_match
profile_match-Fits p method path h =
    let cases = path_matches-cases p path p.path_matcher refl in
    elim (Bool-cases (str_eq p.method "")) [
      | inl e ↦ fits (inl ((eq_iff _ _).0 e)) (cases.0 (ground arith))
      | inr e ↦ elim (Bool-cases (str_eq p.method method)) [
        | inl f ↦ fits (inr ((eq_iff _ _).0 f)) (cases.0 (ground arith))
        | inr f ↦ absurd (ground arith)
      ]
    ]

profile_match-Misfits :
    (p : EndpointProfile) (method : String) (path : Bytes)
    → profile_match p method path ≡ false
    → Misfits method path p
unfolding profile_match
profile_match-Misfits p method path h =
    let cases = path_matches-cases p path p.path_matcher refl in
    elim (Bool-cases (str_eq p.method "")) [
      | inl e ↦ path_differs (cases.1 (ground arith))
      | inr e ↦ elim (Bool-cases (str_eq p.method method)) [
        | inl f ↦ path_differs (cases.1 (ground arith))
        | inr f ↦ other_method (text_ne e) (text_ne f)
      ]
    ]

-- `p` is the first profile of the registry, the catch-all aside, that takes the request.
pub data FirstFit (method : String) (path : Bytes) (p : EndpointProfile) : Registry → Type 0 where
  found :
      {r : Registry}
      → p.name ≢ "unknown_passthrough"
      → Fits method path p
      → FirstFit method path p (p ∷ r)
  later :
      {q : EndpointProfile} {r : Registry}
      → (q.name ≡ "unknown_passthrough") ⊎ Misfits method path q
      → FirstFit method path p r
      → FirstFit method path p (q ∷ r)

-- No profile of the registry, the catch-all aside, takes the request.
pub data NoFit (method : String) (path : Bytes) : Registry → Type 0 where
  end : NoFit method path []
  pass :
      {q : EndpointProfile} {r : Registry}
      → (q.name ≡ "unknown_passthrough") ⊎ Misfits method path q
      → NoFit method path r
      → NoFit method path (q ∷ r)

abbrev Chosen : String → Bytes → Registry → Option EndpointProfile → Type 0
Chosen method path r (some p) = FirstFit method path p r
Chosen method path r none = NoFit method path r

skip :
    (q : EndpointProfile) (r : Registry) (method : String) (path : Bytes)
    (o : Option EndpointProfile)
    → (q.name ≡ "unknown_passthrough") ⊎ Misfits method path q
    → Chosen method path r o
    → Chosen method path (q ∷ r) o
skip q r method path none h c = pass h c
skip q r method path (some p) h c = later h c

first_match-Chosen :
    (r : Registry) (method : String) (path : Bytes)
    → Chosen method path r (first_match r method path)
unfolding first_match
first_match-Chosen [] method path = end
first_match-Chosen (q ∷ r) method path = elim (Bool-cases (str_eq q.name "unknown_passthrough")) [
  | inl n ↦
      rw n (skip q r method path _ (inl ((eq_iff _ _).0 n)) (first_match-Chosen r method path))
  | inr n ↦ rw n (elim (Bool-cases (profile_match q method path)) [
    | inl m ↦ rw m (found (text_ne n) (profile_match-Fits q method path m))
    | inr m ↦ rw m (
        skip q r method path _ (inr (profile_match-Misfits q method path m))
          (first_match-Chosen r method path))
  ])
]

-- The answer of the built-in registry to a request.
abbrev pub Answer : String → Bytes → Option EndpointProfile → Type 0
Answer method path none = ⊥
Answer method path (some p) =
    FirstFit method path p new_registry
    ⊎ ((p ≡ unknown_passthrough) × NoFit method path new_registry)

first_or_fallback :
    (method : String) (path : Bytes) (o : Option EndpointProfile)
    → Chosen method path new_registry o
    → Answer method path (elim o [ some p ↦ some p | none ↦ fallback new_registry ])
first_or_fallback method path (some p) c = inl c
first_or_fallback method path none c = unfold fallback in inr (refl, c)

-- With the built-in profiles every request gets a profile: the first whose method, if it names one, is
-- that of the request and whose matcher, or else whose path, takes the request's path without its
-- trailing slashes; or the passthrough profile exactly when none is. Match never returns its error.
pub registry_match-Answer :
    (method : String) (path : Bytes) → Answer method path (registry_match new_registry method path)
unfolding registry_match
registry_match-Answer method path =
    first_or_fallback method path (first_match new_registry method path)
      (first_match-Chosen new_registry method path)

trim_right_slash-slash :
    (path : Bytes) → trim_right_slash (path ++ b'/' ∷ []) ≡ trim_right_slash path
unfolding trim_right_slash
trim_right_slash-slash [] = refl
trim_right_slash-slash (c ∷ s) = rw (trim_right_slash-slash s)

profile_match-slash :
    (p : EndpointProfile) (method : String) (path : Bytes)
    → profile_match p method (path ++ b'/' ∷ []) ≡ profile_match p method path
unfolding profile_match
profile_match-slash p method path = rw (trim_right_slash-slash path)

first_match-slash :
    (r : Registry) (method : String) (path : Bytes)
    → first_match r method (path ++ b'/' ∷ []) ≡ first_match r method path
unfolding first_match
first_match-slash [] method path = refl
first_match-slash (p ∷ r) method path =
    rw (profile_match-slash p method path, first_match-slash r method path)

-- A slash at the end of a path never changes the profile that a registry chooses.
pub registry_match-slash :
    (r : Registry) (method : String) (path : Bytes)
    → registry_match r method (path ++ b'/' ∷ []) ≡ registry_match r method path
unfolding registry_match
registry_match-slash r method path = rw (first_match-slash r method path, registry_match)
