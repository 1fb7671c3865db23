-- ===== src/Tests/Services.antt =====
-- A key-value server, a text of an id and a codec of one notification, with their laws.
use delayed_notifier.Prelude.{
  ℕ, zero, suc, ◌==◌, ◌&&◌, ◌≡◌, refl, String, Option, none, some, true, false, Bool, str_eq,
  if◌then◌else◌, inl, inr, Bool-cases, arith, eq_iff, ap, ==_iff, str_same,
}
use delayed_notifier.Prelude.Int.{ℤ, pos, negsuc}
use delayed_notifier.Go.Errors.{text, sentinel, redis_nil, Result, ok, err}
use delayed_notifier.Domain.Model.{Uuid, Notification, EmailDetails}
use delayed_notifier.Domain.Json.{JsonCodec, RoundTrips}
use delayed_notifier.Domain.Contract.{Ensures}
use delayed_notifier.Redis.Cache.{RedisClient}
use delayed_notifier.Redis.Client.{Keys, Fewer, FewerOr, LawfulClient}
use delayed_notifier.Redis.LawfulCache.{Injective}
use delayed_notifier.Tests.Data.{note}

abbrev pub unary : Uuid → String
unary zero = ""
unary (suc n) = String.◌∷◌ "x" (unary n)

pub unary-Injective : Injective unary
unary-Injective zero zero e = refl
unary-Injective zero (suc b) e = cc
unary-Injective (suc a) zero e = cc
unary-Injective (suc a) (suc b) e = ap suc (unary-Injective a b (cc))

abbrev answer : Option String → Result String
answer none = err (sentinel redis_nil)
answer (some v) = ok v

abbrev pub put : String → String → Keys → Keys
put key v s k = if str_eq k key then some v else s k

abbrev pub drop : String → Keys → Keys
drop key s k = if str_eq k key then none else s k

abbrev pub client : RedisClient Keys
client = record {
  get = λ key s. (answer (s key), s);
  set = λ key v _ s. (ok tt, put key v s);
  del = λ key s. (ok tt, drop key s);
}

answer_law :
    (s : Keys) (key : String) (o : Option String)
    → s key ≡ o
    → Ensures (λ v s'. Fewer s s' × (s key ≡ some v)) (λ _ s'. Fewer s s') (answer o, s)
answer_law s key none e = λ k v h. h
answer_law s key (some v) e = ((λ k u h. h), e)

pub put_law : (s : Keys) (key v : String) → FewerOr key v s (put key v s)
put_law s key v k u h = elim (Bool-cases (str_eq k key)) [
  | inl same ↦ inr ((eq_iff k key).0 same, cc)
  | inr other ↦ inl (ground arith)
]

pub drop_law : (s : Keys) (key : String) → Fewer s (drop key s) × (drop key s key ≡ none)
drop_law s key = (kept, rw (str_same key key refl) refl)
  where
    kept : (k v : String) → drop key s k ≡ some v → s k ≡ some v
    kept k v h = elim (Bool-cases (str_eq k key)) [
      | inl same ↦ ground arith
      | inr other ↦ ground arith
    ]

pub get_answer :
    (s : Keys) (key : String)
    → Ensures (λ v s'. Fewer s s' × (s key ≡ some v)) (λ _ s'. Fewer s s') (client.get key s)
get_answer s key = answer_law s key (s key) refl

abbrev pub client_lawful : LawfulClient client
client_lawful = record {
  held = λ s. s;
  get_law = get_answer;
  set_law = λ s key v d. put_law s key v;
  del_law = λ s key. drop_law s key;
}

abbrev absent {ℓ} : {A : Type ℓ} → Option A → Bool
absent none = true
absent (some _) = false

abbrev same_ℤ : ℤ → ℕ → Bool
same_ℤ (pos n) k = n == k
same_ℤ (negsuc n) k = false

abbrev same_email : Option EmailDetails → String → Bool
same_email none t = false
same_email (some d) t = str_eq d.to t

-- Whether it is notification 3 as it is scheduled.
abbrev is_third : Notification → Bool
is_third n =
    n.id == 3
    && str_eq n.subject "subject"
    && str_eq n.message "text"
    && str_eq n.channel "email"
    && str_eq n.status "scheduled"
    && same_ℤ n.attempts 0
    && absent n.author_id
    && same_email n.email "a@b.org"
    && absent n.telegram
    && same_ℤ n.scheduled_at 5000000000
    && absent n.sent_at
    && same_ℤ n.created_at 1
    && same_ℤ n.updated_at 1

and_true : (a b : Bool) → (a && b) ≡ true → (a ≡ true) × (b ≡ true)
and_true true b h = (refl, h)
and_true false b h = cc

absent_lem {ℓ} : {A : Type ℓ} (o : Option A) → absent o ≡ true → o ≡ none
absent_lem none h = refl
absent_lem (some a) h = cc

same_ℤ_lem : (a : ℤ) (k : ℕ) → same_ℤ a k ≡ true → a ≡ pos k
same_ℤ_lem (pos n) k h = ap pos ((==_iff n k).0 h)
same_ℤ_lem (negsuc n) k h = cc

same_email_lem :
    (o : Option EmailDetails) (t : String) → same_email o t ≡ true → o ≡ some (record { to = t })
same_email_lem none t h = cc
same_email_lem (some d) t h = ap (λ (u : String). some (record { to = u })) ((eq_iff d.to t).0 h)

is_third_lem : (n : Notification) → is_third n ≡ true → n ≡ note 3 "scheduled"
is_third_lem n h = ground (
  arith,
  eq_iff n.subject "subject",
  eq_iff n.message "text",
  eq_iff n.channel "email",
  eq_iff n.status "scheduled",
  same_ℤ_lem n.attempts 0,
  absent_lem n.author_id,
  same_email_lem n.email "a@b.org",
  absent_lem n.telegram,
  same_ℤ_lem n.scheduled_at 5000000000,
  absent_lem n.sent_at,
  same_ℤ_lem n.created_at 1,
  same_ℤ_lem n.updated_at 1,
)

abbrev pub third_json : JsonCodec
third_json = record {
  marshal = λ n. if is_third n then ok "3" else err (text "unsupported value");
  unmarshal = λ s. if str_eq s "3" then ok (note 3 "scheduled") else err (text "invalid character");
}

pub third_RoundTrips : RoundTrips third_json
third_RoundTrips n bytes h = elim (Bool-cases (is_third n)) [
  | inl same ↦ let third = is_third_lem n same in ground (arith, eq_iff bytes "3")
  | inr other ↦ cc
]
