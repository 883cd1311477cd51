-- ===== src/Queues/Catalog/Search.antt =====
-- What an agent's active queues let a search see.
use aiva_v.Prelude.{
  ◌≡◌, refl, ◌∙◌, ap, inl, inr, Bool, true, false, not, Option, none, some, List, [], ◌∷◌, ◌++◌,
  ◌||◌, ◌&&◌, text_eq, any_of, Text, strip, text_eq_refl, eq_of_text_eq, Map, find, has_key, member,
  arith, Bool-cases,
}
use aiva_v.Queues.Catalog.{
  Config, Queue, get_queue_groups, is_named, is_allowed, add_new, verticals_of, collect,
  or_unrestricted, resolve_verticals, Validated, valid, unknown_queue, not_allowed, validate_each,
  validate_active_queues,
}

pub member-append :
    (t : Text) (xs ys : List Text) → member t (xs ++ ys) ≡ (member t xs || member t ys)
member-append t [] ys = refl
member-append t (x ∷ xs) ys = ground (arith, member-append t xs ys)

member-add_new :
    (v : Text) (vs seen : List Text) → member v (add_new vs seen) ≡ (member v seen || member v vs)
unfolding add_new
member-add_new v [] seen = ground arith
member-add_new v (w ∷ vs) seen = elim (Bool-cases (member w seen)) [
  | inl s ↦ rw s (ground (arith, member-add_new v vs seen, s, eq_of_text_eq w v))
  | inr s ↦
      rw s (ground (arith, member-add_new v vs (seen ++ w ∷ []), member-append v seen (w ∷ [])))
]

-- Whether one of the queues of these keys has the vertical.
unfoldable pub in_some_queue : Map Queue → Text → List Text → Bool
in_some_queue queues v keys = any_of (λ k. member v (verticals_of (find k queues))) keys

member-collect :
    (queues : Map Queue) (v : Text) (keys seen : List Text)
    → member v (collect queues keys seen) ≡ (member v seen || in_some_queue queues v keys)
unfolding collect in_some_queue
member-collect queues v [] seen = ground arith
member-collect queues v (k ∷ keys) seen = ground (
  arith,
  member-collect queues v keys (add_new (verticals_of (find k queues)) seen),
  member-add_new v (verticals_of (find k queues)) seen,
)

-- The verticals that a search is limited to, none where it is not limited.
abbrev pub limited_to : Option (List Text) → List Text
limited_to none = []
limited_to (some vs) = vs

limited_to-or_unrestricted : (vs : List Text) → limited_to (or_unrestricted vs) ≡ vs
unfolding or_unrestricted
limited_to-or_unrestricted [] = refl
limited_to-or_unrestricted (v ∷ vs) = refl

-- A vertical is among those that a search under active queues is limited to exactly if one of these
-- queues has it in the catalog, where a search without a limit counts as limited to no vertical.
pub resolve_verticals-member :
    (config : Option Config) (keys : List Text) (v : Text)
    → member v (limited_to (resolve_verticals config keys))
      ≡ in_some_queue (get_queue_groups config) v keys
unfolding resolve_verticals in_some_queue
resolve_verticals-member config [] v = refl
resolve_verticals-member config (k ∷ keys) v =
    ap (member v) (limited_to-or_unrestricted (collect (get_queue_groups config) (k ∷ keys) []))
    ∙ member-collect (get_queue_groups config) v (k ∷ keys) []

or_unrestricted_nil :
    (vs : List Text) → ((v : Text) → member v vs ≡ false) → or_unrestricted vs ≡ none
unfolding or_unrestricted
or_unrestricted_nil [] h = refl
or_unrestricted_nil (v ∷ vs) h = let c : true ≡ false = ground (arith, h v, text_eq_refl v) in cc

-- Where none of the active queues has a vertical, the search is not limited: it sees the whole corpus,
-- as if no queue were active.
pub resolve_verticals-unlimited :
    (config : Option Config) (keys : List Text)
    → ((v : Text) → in_some_queue (get_queue_groups config) v keys ≡ false)
    → resolve_verticals config keys ≡ none
unfolding resolve_verticals
resolve_verticals-unlimited config [] h = refl
resolve_verticals-unlimited config (k ∷ keys) h =
    or_unrestricted_nil (collect (get_queue_groups config) (k ∷ keys) [])
      (λ v. member-collect (get_queue_groups config) v (k ∷ keys) [] ∙ h v)

-- What the validated keys are: known, allowed, and none twice.
abbrev pub AreUsable : Map Queue → Option (List Text) → List Text → Type 0
AreUsable queues allowed [] = Unit
AreUsable queues allowed (k ∷ ks) =
    (has_key k queues ≡ true)
    × ((is_allowed allowed k ≡ true) × ((member k ks ≡ false) × AreUsable queues allowed ks))

AreUsable-append :
    (queues : Map Queue) (allowed : Option (List Text)) (ks : List Text) (k : Text)
    → AreUsable queues allowed ks
    → member k ks ≡ false
    → has_key k queues ≡ true
    → is_allowed allowed k ≡ true
    → AreUsable queues allowed (ks ++ k ∷ [])
AreUsable-append queues allowed [] k h n a b = (a, (b, (refl, tt)))
AreUsable-append queues allowed (j ∷ ks) k h n a b = (
  h.0,
  (
    h.1.0,
    (
      ground (arith, h.1.1.0, n, member-append j ks (k ∷ []), eq_of_text_eq k j, text_eq_refl j),
      AreUsable-append queues allowed ks k h.1.1.1 (ground (arith, n)) a b,
    ),
  ),
)

-- A limit to no key at all.
abbrev pub is_some_nil : Option (List Text) → Bool
is_some_nil none = false
is_some_nil (some []) = true
is_some_nil (some (t ∷ ts)) = false

is_some_nil-or_unrestricted : (ts : List Text) → is_some_nil (or_unrestricted ts) ≡ false
unfolding or_unrestricted
is_some_nil-or_unrestricted [] = refl
is_some_nil-or_unrestricted (t ∷ ts) = refl

-- Whether a key is among the requested ones: some text of the request is not blank and is the key, up to
-- white space around it.
unfoldable pub is_asked : Text → List Text → Bool
is_asked k raws = any_of (λ raw. is_named raw && text_eq (strip raw) k) raws

-- What a validation of these requested keys answers, with these validated before: exactly the
-- requested keys, each usable and none of them twice, with the search unrestricted only where no key is
-- left; or a requested key that is not in the catalog; or one that is but is not allowed.
unfoldable pub IsValidated :
    Map Queue → Option (List Text) → List Text → List Text → Validated → Type 0
IsValidated queues allowed raws ks (valid keys) =
    AreUsable queues allowed (limited_to keys)
    × (is_some_nil keys ≡ false)
    × ((k : Text) → member k (limited_to keys) ≡ (member k ks || is_asked k raws))
IsValidated queues allowed raws ks (unknown_queue key) =
    (is_asked key raws ≡ true) × (has_key key queues ≡ false)
IsValidated queues allowed raws ks (not_allowed key) =
    (is_asked key raws ≡ true) × (has_key key queues ≡ true) × (is_allowed allowed key ≡ false)

-- The keys of a longer request, where a text of it adds nothing new or is validated already.
IsValidated-more :
    (queues : Map Queue) (allowed : Option (List Text)) (raw : Text) (raws ks ks' : List Text)
    (o : Validated)
    → ((k : Text) → (member k ks' || is_asked k raws) ≡ (member k ks || is_asked k (raw ∷ raws)))
    → ((k : Text) → is_asked k raws ≡ true → is_asked k (raw ∷ raws) ≡ true)
    → IsValidated queues allowed raws ks' o
    → IsValidated queues allowed (raw ∷ raws) ks o
unfolding IsValidated
IsValidated-more queues allowed raw raws ks ks' (valid keys) e m (u, n, h) = (u, n, λ k. h k ∙ e k)
IsValidated-more queues allowed raw raws ks ks' (unknown_queue key) e m (a, h) = (m key a, h)
IsValidated-more queues allowed raw raws ks ks' (not_allowed key) e m (a, h, n) = (m key a, h, n)

is_asked-more :
    (k raw : Text) (raws : List Text) → is_asked k raws ≡ true → is_asked k (raw ∷ raws) ≡ true
unfolding is_asked
is_asked-more k raw raws h = ground (arith, h)

skipped_alike :
    (k raw : Text) (raws ks : List Text)
    → (not (is_named raw) || member (strip raw) ks) ≡ true
    → (member k ks || is_asked k raws) ≡ (member k ks || is_asked k (raw ∷ raws))
unfolding is_asked
skipped_alike k raw raws ks h = elim (Bool-cases (text_eq (strip raw) k)) [
  | inl e ↦
      let same : strip raw ≡ k = eq_of_text_eq (strip raw) k e in
      let h' = rw same at h in ground (arith, h', e)
  | inr e ↦ ground (arith, h, e)
]

added_alike :
    (k raw : Text) (raws ks : List Text)
    → is_named raw ≡ true
    → (member k (ks ++ strip raw ∷ []) || is_asked k raws)
      ≡ (member k ks || is_asked k (raw ∷ raws))
unfolding is_asked
added_alike k raw raws ks h = ground (arith, h, member-append k ks (strip raw ∷ []))

is_asked-first :
    (raw : Text) (raws : List Text) → is_named raw ≡ true → is_asked (strip raw) (raw ∷ raws) ≡ true
unfolding is_asked
is_asked-first raw raws h = ground (arith, h, text_eq_refl (strip raw))

or_false : (b : Bool) → b ≡ (b || false)
or_false true = refl
or_false false = refl

validate_each-IsValidated :
    (queues : Map Queue) (allowed : Option (List Text)) (raws ks : List Text)
    → AreUsable queues allowed ks
    → IsValidated queues allowed raws ks (validate_each queues allowed raws ks)
unfolding validate_each IsValidated is_asked
validate_each-IsValidated queues allowed [] ks h = (
  rw (limited_to-or_unrestricted ks) h,
  is_some_nil-or_unrestricted ks,
  λ k. ap (member k) (limited_to-or_unrestricted ks) ∙ or_false (member k ks),
)
validate_each-IsValidated queues allowed (raw ∷ raws) ks h =
    let key = strip raw in
    elim (Bool-cases (not (is_named raw) || member key ks)) [
      | inl skip ↦ rw skip (
          IsValidated-more queues allowed raw raws ks ks _ (λ k. skipped_alike k raw raws ks skip)
            (λ k. is_asked-more k raw raws) (validate_each-IsValidated queues allowed raws ks h))
      | inr new ↦
          let named : is_named raw ≡ true = ground (arith, new) in
          let asked = is_asked-first raw raws named in
          rw new elim (Bool-cases (has_key key queues)) [
            | inr u ↦ rw u (asked, u)
            | inl known ↦ rw known elim (Bool-cases (is_allowed allowed key)) [
              | inr n ↦ rw n (asked, known, n)
              | inl a ↦ rw a (
                  IsValidated-more queues allowed raw raws ks (ks ++ key ∷ []) _
                    (λ k. added_alike k raw raws ks named) (λ k. is_asked-more k raw raws)
                    (validate_each-IsValidated queues allowed raws (ks ++ key ∷ [])
                      (AreUsable-append queues allowed ks key h (ground (arith, new)) known a)))
            ]
          ]
    ]

-- Whatever queues a chat asks for, validation gives exactly the keys of the request, blanks and white
-- space around them aside, each once, all in the catalog and allowed for the agent, and an
-- unrestricted search only if the request has no key; or it names a requested key that is not in the
-- catalog, or one that is but is not allowed.
pub validate_active_queues-IsValidated :
    (config : Option Config) (keys : List Text) (allowed : Option (List Text))
    → IsValidated
        (get_queue_groups config)
        allowed
        keys
        []
        (validate_active_queues config keys allowed)
unfolding validate_active_queues
validate_active_queues-IsValidated config keys allowed =
    validate_each-IsValidated (get_queue_groups config) allowed keys [] tt
