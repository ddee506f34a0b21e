-- ===== src/Webhook/Requests.antt =====
-- web/routers/payments.py: the requests and the answers of the checkout routes, prices, and texts.
use ko_finance.Common.{
  ℕ, suc, zero, ℤ, pos, Text, codes, nonempty, or_text, strip, map, Json, null, flag, number, real,
  string, object, Fields, end, field, field_of, truthy, Option, none, some, or_default, Bool, true,
  false, ◌&&◌, List, [], ◌∷◌, ◌==◌, ◌-◌, leb, Response, responds, http_error, if◌then◌else◌,
}
use ko_finance.Payments.{generate_order_id}
use ko_finance.Payments.Orders.{Checkout}
use ko_finance.Webhook.{default_order_name, amount_fallback}
use ko_finance.Webhook.Payment.{is_text}

-- Who makes a request: the id of the user who is logged in, and the texts of the user id and of the
-- organization of the request's RbacState.
pub record Caller : Type 0 where
  pub user : Option Text
  pub rbac_user : Option Text
  pub org : Option Text

pub record TossCheckoutCreateRequest : Type 0 where
  pub plan_tier : Text
  pub amount : Option ℕ
  pub currency : Option Text
  pub order_name : Option Text
  pub redirect_path : Option Text
  pub customer_name : Option Text
  pub customer_email : Option Text

pub record TossCheckoutCreateResponse : Type 0 where
  pub order_id : Text
  pub plan_tier : Text
  pub amount : ℤ
  pub currency : Text
  pub order_name : Text
  pub success_path : Text
  pub fail_path : Text
  pub status : Text
  pub created_at : Text

pub record TossPaymentsConfirmRequest : Type 0 where
  pub payment_key : Text
  pub order_id : Text
  pub amount : ℕ
  pub plan_tier : Option Text

pub record TossPaymentsConfirmResponse : Type 0 where
  pub payment_key : Text
  pub order_id : Text
  pub approved_at : Option Text
  pub raw : Fields

-- What the payment provider answers to a confirmation: an object, or an error by its code; or the keys
-- of the client are not set, or the call raises another exception.
pub data TossReply : Type 0 where
  confirmed : Fields → TossReply
  toss_error : ℕ → TossReply
  config_missing : TossReply
  unreachable : TossReply

abbrev pub upper : Text → Text
upper s = map (λ c. if leb 97 c && leb c 122 then c - 32 else c) s

abbrev starts_with_slash : Text → Bool
starts_with_slash [] = false
starts_with_slash (c ∷ s) = c == b'/'

-- `_sanitize_redirect_path`
abbrev pub sanitize_redirect_path : Option Text → Option Text
sanitize_redirect_path none = none
sanitize_redirect_path (some s) =
    let trimmed = strip s in if starts_with_slash trimmed then some trimmed else none

-- `entry.get("price") or {}`; `none` is a price that is no dict.
abbrev pub price_of : Fields → Option Fields
price_of entry = elim (field_of (codes "price") entry) [
  | none ↦ some end
  | some (object fs) ↦ some fs
  | some v ↦ if truthy v then none else some end
]

-- `int(amount)` of a number above 0.
abbrev pub positive_amount : Json → Option ℤ
positive_amount (number (pos n)) = if n == 0 then none else some (pos n)
positive_amount (real (pos n) f) = if n == 0 && f == 0 then none else some (pos n)
positive_amount (flag true) = some (pos 1)
positive_amount v = none

-- The loop over the tiers of the catalog; the outer `none` is an AttributeError.
abbrev pub catalog_amount : Text → List Fields → Option (Option ℤ)
catalog_amount tier [] = some none
catalog_amount tier (entry ∷ entries) =
    let rest = catalog_amount tier entries in
    if is_text (field_of (codes "tier") entry) tier
    then elim (price_of entry) [
      | none ↦ none
      | some price ↦ elim (positive_amount (or_default (field_of (codes "amount") price) null)) [
        | none ↦ rest
        | some amount ↦ some (some amount)
      ]
    ]
    else rest

-- `if fallback: return fallback`
abbrev pub fallback_or_none : ℤ → Option ℤ
fallback_or_none (pos zero) = none
fallback_or_none amount = some amount

-- `_resolve_plan_amount` with the tiers of the catalog; `some none` is the HTTPException.
unfoldable pub resolve_plan_amount : Text → Option ℕ → List Fields → Option (Option ℤ)
resolve_plan_amount tier (some (suc n)) catalog = some (some (pos (suc n)))
resolve_plan_amount tier override catalog = elim (catalog_amount tier catalog) [
  | none ↦ none
  | some (some amount) ↦ some (some amount)
  | some none ↦ some (fallback_or_none (amount_fallback tier))
]

-- `if value: metadata[key] = value`
abbrev pub given_field : Text → Option Text → Fields → Fields
given_field key none rest = rest
given_field key (some s) rest = if nonempty s then field key (string s) rest else rest

abbrev pub checkout_metadata : TossCheckoutCreateRequest → Fields
checkout_metadata p = given_field (codes "redirectPath") (sanitize_redirect_path p.redirect_path) (
    given_field (codes "customerName") p.customer_name
      (given_field (codes "customerEmail") p.customer_email end))

-- The order that is recorded.
abbrev pub requested_order : Text → Text → Option Text → TossCheckoutCreateRequest → ℤ → Checkout
requested_order digits user org p amount = record {
  order_id = generate_order_id p.plan_tier digits;
  plan_tier = p.plan_tier;
  amount = amount;
  currency = upper (or_text (or_default p.currency []) (codes "KRW"));
  order_name = or_text (or_default p.order_name []) (default_order_name p.plan_tier);
  user_id = some user;
  org_id = org;
  metadata = checkout_metadata p;
}

-- A text of a provider's answer, or the request's; `none` fails the validation of the response.
abbrev pub answer_text : Text → Text → Fields → Option Text
answer_text key default answer = elim (field_of key answer) [
  | none ↦ some default
  | some (string s) ↦ some s
  | some v ↦ none
]

abbrev pub approved_of : Fields → Option (Option Text)
approved_of answer = elim (field_of (codes "approvedAt") answer) [
  | none ↦ some none
  | some null ↦ some none
  | some (string s) ↦ some (some s)
  | some v ↦ none
]

abbrev pub confirm_response :
    TossPaymentsConfirmRequest → Fields → Response TossPaymentsConfirmResponse
confirm_response p answer = elim (answer_text (codes "paymentKey") p.payment_key answer) [
  | none ↦ http_error 500
  | some key ↦ elim (answer_text (codes "orderId") p.order_id answer) [
    | none ↦ http_error 500
    | some id ↦ elim (approved_of answer) [
      | none ↦ http_error 500
      | some approved ↦
          responds
            (record { payment_key = key; order_id = id; approved_at = approved; raw = answer })
    ]
  ]
]
