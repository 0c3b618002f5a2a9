-- ===== src/Monitor/Controller/Requests.antt =====
-- The body of a request that creates or updates a monitor: readMonitor in
-- backend/internal/monitor/controller.go.
pub mod Accepts
use uptime.Prelude.{
  ℕ, Bool, true, false, not, ◌||◌, Option, none, some, List, [], ◌∷◌, Bytes, codes, bytes_eq, split,
  ltb, if◌then◌else◌, ◌⊎◌, inl, inr,
}
use uptime.Http.Reply.{Reply, fault}

-- A decoded body; an interval below zero is `none`.
pub record MonitorRequest : Type 0 where
  pub url : Bytes
  pub interval_seconds : Option ℕ

-- The header Content-Type, and what the JSON decoder makes of the body: nothing where it is longer
-- than 16 KiB, has unknown fields, or has more than one value.
pub record Upload : Type 0 where
  pub content_type : Bytes
  pub body : Option MonitorRequest

abbrev pub first_piece : List Bytes → Bytes
first_piece [] = []
first_piece (p ∷ ps) = p

abbrev pub is_json : Bytes → Bool
is_json content_type = bytes_eq (first_piece (split b';' content_type)) (codes "application/json")

abbrev pub invalid_json : {A : Type 0} → Reply A
invalid_json =
    fault 400 (codes "invalid_request") (codes "Provide a URL and check interval as JSON")

abbrev pub invalid_url : {A : Type 0} → Reply A
invalid_url = fault 400 (codes "invalid_url") (
    codes
      "Enter an HTTP or HTTPS URL up to 2048 bytes without credentials or a fragment; use punycode for international domains")

abbrev pub invalid_interval : {A : Type 0} → Reply A
invalid_interval =
    fault 400 (codes "invalid_interval")
      (codes "Check interval must be a whole number between 5 and 2147483647 seconds")

-- strings.TrimSpace is Unicode's.
module _ (trim_space : Bytes → Bytes) (valid_url : Bytes → Bool) {A : Type 0} where
  unfoldable pub checked_interval : Bytes → Option ℕ → Reply A ⊎ (Bytes × ℕ)
  checked_interval url none = inl invalid_interval
  checked_interval url (some n) =
      if ltb n 5 || ltb 2147483647 n then inl invalid_interval else inr (url, n)

  unfoldable pub checked_url : Bytes → Option ℕ → Reply A ⊎ (Bytes × ℕ)
  unfolding checked_interval
  checked_url url interval =
      if not (valid_url url) then inl invalid_url else checked_interval url interval

  unfoldable pub checked_body : Option MonitorRequest → Reply A ⊎ (Bytes × ℕ)
  unfolding checked_url
  checked_body none = inl invalid_json
  checked_body (some b) = checked_url (trim_space b.url) b.interval_seconds

  -- The refusal that is written, or the URL and the interval.
  unfoldable pub read_monitor : Upload → Reply A ⊎ (Bytes × ℕ)
  unfolding checked_body
  read_monitor r = if not (is_json r.content_type) then inl invalid_json else checked_body r.body
