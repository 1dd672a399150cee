-- ===== src/Extractor/Errors/Upstream.antt =====
-- Which classes name an error of the upstream.
use metering_proxy.Common.{
  ℕ, ◌≡◌, refl, ap, sym, ◌∙◌, String, Bool, true, false, Option, none, some, List, [], ◌∷◌, Bytes,
  codes, leb, ◌==◌, All, if◌then◌else◌, arith,
}
use metering_proxy.Common.Int64.{ℤ, pos, negsuc}
use metering_proxy.Common.Trim.{has_prefix}
use metering_proxy.Extractor.{ErrorInfo}
use metering_proxy.Extractor.Errors.{
  classify_error, combined, classify_status, classify_upstream5xx, classify_400, classify_401,
  classify_403, classify_429, first_class, on_status, upstream_rules, upstream_statuses,
  request_rules, key_rules, permission_rules, quota_rules, model_rules, length_rules, status_cases,
  contains_any,
}
use metering_proxy.Extractor.Errors.Extract.{
  ErrorPayload, RawError, raw_error, classified, error_info_of, first_error, extract_error_info,
}

unfoldable pub is_upstream : String → Bool
unfolding has_prefix
is_upstream class = has_prefix (codes class) (codes "upstream_")

abbrev pub is_server_error : ℤ → Bool
is_server_error (pos n) = leb 500 n
is_server_error (negsuc n) = false

-- Whether a class names an error of the upstream.
data Names (v : Bool) (class : String) : Type 0 where
  named : is_upstream class ≡ v → Names v class

names-eq : (v : Bool) (class : String) → Names v class → is_upstream class ≡ v
names-eq v class (named h) = h

either : (b v : Bool) (x y : String) → Names v x → Names v y → Names v (if b then x else y)
either true v x y h k = h
either false v x y h k = k

first_class-Names :
    (v : Bool) (s : Bytes) (rules : List (List String × String)) (default : String)
    → All (λ r. Names v r.1) rules
    → Names v default
    → Names v (first_class s rules default)
unfolding first_class
first_class-Names v s [] default h k = k
first_class-Names v s ((texts, class) ∷ rules) default h k =
    either (contains_any s texts) v class (first_class s rules default) h.0
      (first_class-Names v s rules default h.1 k)

on_status-Names :
    (v : Bool) (n : ℕ) (cases : List (ℕ × String)) (default : String)
    → All (λ c. Names v c.1) cases
    → Names v default
    → Names v (on_status n cases default)
unfolding on_status
on_status-Names v n [] default h k = k
on_status-Names v n ((c, class) ∷ cases) default h k =
    either (n == c) v class (on_status n cases default) h.0
      (on_status-Names v n cases default h.1 k)

-- A case of a status below 500.
below : (k n : ℕ) → leb 500 k ≡ false → (n == k) ≡ true → leb 500 n ≡ false
below k n h e = ground arith

-- Cases of statuses below 500, none of which names the upstream.
below_500 :
    (n : ℕ) (cases : List (ℕ × String)) (default : String)
    → All (λ c. (leb 500 c.0 ≡ false) × Names false c.1) cases
    → Names (leb 500 n) default
    → Names (leb 500 n) (on_status n cases default)
unfolding on_status
below_500 n [] default h k = k
below_500 n ((c, class) ∷ cases) default h k = at (n == c) refl (below_500 n cases default h.1 k)
  where
    at :
        (b : Bool)
        → (n == c) ≡ b
        → Names (leb 500 n) (on_status n cases default)
        → Names (leb 500 n) (if b then class else on_status n cases default)
    at true e rest = named (names-eq false class h.0.1 ∙ sym (below c n h.0.0 e))
    at false e rest = rest

at_server :
    (n : ℕ) (x : String) → Names true x → Names (leb 500 n) (if leb 500 n then x else "unknown")
unfolding is_upstream
at_server n x h = cases (leb 500 n)
  where
    cases : (b : Bool) → Names b (if b then x else "unknown")
    cases true = h
    cases false = named refl

classify_upstream5xx-Names : (n : ℕ) (s : Bytes) → Names true (classify_upstream5xx n s)
unfolding classify_upstream5xx is_upstream
classify_upstream5xx-Names n s =
    first_class-Names true s upstream_rules (on_status n upstream_statuses "upstream_5xx")
      (
        named refl,
        (
          named refl,
          (named refl, (named refl, (named refl, (named refl, (named refl, (named refl, tt)))))),
        ),
      )
      (on_status-Names true n upstream_statuses "upstream_5xx"
        (named refl, (named refl, (named refl, (named refl, (named refl, tt))))) (named refl))

status_cases-Names :
    (s : Bytes) → All (λ c. (leb 500 c.0 ≡ false) × Names false c.1) (status_cases s)
unfolding status_cases classify_400 classify_401 classify_403 classify_429 is_upstream
status_cases-Names s = (
  (
    refl,
    first_class-Names false s request_rules "invalid_request" (named refl, (named refl, tt))
        (named refl),
  ),
  (
    (
      refl,
      first_class-Names false s key_rules "auth_failed" (named refl, (named refl, tt)) (named refl),
    ),
    (
      (refl, named refl),
      (
        (
          refl,
          first_class-Names false s permission_rules "permission_denied"
              (named refl, (named refl, tt)) (named refl),
        ),
        (
          (refl, first_class-Names false s model_rules "not_found" (named refl, tt) (named refl)),
          (
            (refl, named refl),
            (
              (refl, named refl),
              (
                (refl, named refl),
                (
                  (
                    refl,
                    first_class-Names false s length_rules "validation_error" (named refl, tt)
                        (named refl),
                  ),
                  (
                    (
                      refl,
                      first_class-Names false s quota_rules "rate_limited"
                          (named refl, (named refl, tt)) (named refl),
                    ),
                    tt,
                  ),
                ),
              ),
            ),
          ),
        ),
      ),
    ),
  ),
)

classify_status-Names : (n : ℕ) (s : Bytes) → Names (leb 500 n) (classify_status n s)
unfolding classify_status
classify_status-Names n s =
    below_500 n (status_cases s) _ (status_cases-Names s)
      (at_server n (classify_upstream5xx n s) (classify_upstream5xx-Names n s))

classify_error-is_upstream :
    (status : ℤ) (t c m : String)
    → is_upstream (classify_error status t c m) ≡ is_server_error status
unfolding classify_error is_upstream
classify_error-is_upstream (pos n) t c m =
    names-eq (leb 500 n) (classify_status n (combined t c m))
      (classify_status-Names n (combined t c m))
classify_error-is_upstream (negsuc n) t c m = refl

-- What is known of an error, if there is one, has a class of the upstream for a server error only.
abbrev Says : ℤ → Option ErrorInfo → Type 0
Says status o = (info : ErrorInfo) → o ≡ some info → is_upstream info.class ≡ is_server_error status

Says-none : (status : ℤ) → Says status none
Says-none status info e = absurd (cc e)

Says-some :
    (status : ℤ) (i : ErrorInfo)
    → is_upstream i.class ≡ is_server_error status
    → Says status (some i)
Says-some status i h info e =
    let class_is : i.class ≡ info.class = ap (λ o. elim o [ none ↦ "" | some j ↦ j.class ]) e in
    rw (sym class_is) h

Says-if :
    (b : Bool) (status : ℤ) (o : Option ErrorInfo)
    → Says status o
    → Says status (if b then none else o)
Says-if true status o h = Says-none status
Says-if false status o h = h

module _ (sanitize : String → String × Bool) where
  classified-Says : (status : ℤ) (r : RawError) → Says status (classified sanitize status r)
  unfolding classified
  classified-Says status r =
      Says-if _ status _ (
        Says-some status _ (classify_error-is_upstream status r.type r.code (sanitize r.message).0))

  error_info_of-Says :
      (status : ℤ) (o : Option ErrorPayload) → Says status (error_info_of sanitize status o)
  unfolding error_info_of
  error_info_of-Says status none = Says-none status
  error_info_of-Says status (some p) = of_raw (raw_error p.error p)
    where
      of_raw :
          (o : Option RawError)
          → Says status (elim o [ none ↦ none | some r ↦ classified sanitize status r ])
      of_raw none = Says-none status
      of_raw (some r) = classified-Says status r

  module _ {V : Type 0} (unmarshal : V → Option ErrorPayload) (values : Bytes → List V) where
    first_error-Says :
        (status : ℤ) (vs : List V) → Says status (first_error sanitize unmarshal values status vs)
    unfolding first_error
    first_error-Says status [] = Says-none status
    first_error-Says status (v ∷ vs) =
        or_later (error_info_of sanitize status (unmarshal v))
          (error_info_of-Says status (unmarshal v)) (first_error-Says status vs)
      where
        or_later :
            (o : Option ErrorInfo)
            → Says status o
            → Says status (first_error sanitize unmarshal values status vs)
            → Says status (elim o [
              | none ↦ first_error sanitize unmarshal values status vs
              | some info ↦ some info
            ])
        or_later none h rest = rest
        or_later (some info) h rest = h

-- The error information that is drawn from a sample, whatever the sample is and whatever the decoder
-- and the masking of messages make of it, has a class that starts with `upstream_` just where the
-- status of the response is 500 or more.
pub extract_error_info-is_upstream :
    (sanitize : String → String × Bool) {V : Type 0} (unmarshal : V → Option ErrorPayload)
    (values : Bytes → List V) (sample : Bytes) (status : ℤ) (content_type : String)
    (info : ErrorInfo)
    → extract_error_info sanitize unmarshal values sample status content_type ≡ some info
    → is_upstream info.class ≡ is_server_error status
unfolding extract_error_info
extract_error_info-is_upstream sanitize unmarshal values sample status content_type info e =
    Says-if _ status _ (first_error-Says sanitize unmarshal values status (values sample)) info e
