-- ===== src/Monitor/Controller/Requests/Accepts.antt =====
-- What readMonitor accepts.
use uptime.Prelude.{
  ℕ, ◌≤◌, ◌≡◌, Bool, true, ◌||◌, Option, none, some, Bytes, arith, ltb, ◌⊎◌, inl, inr, Bool-cases,
}
use uptime.Http.Reply.{Reply}
use uptime.Monitor.Controller.Requests.{
  MonitorRequest, Upload, is_json, read_monitor, checked_body, checked_url, checked_interval,
}

module _ (trim_space : Bytes → Bytes) (valid_url : Bytes → Bool) where
  abbrev pub IsAccepted : Bytes → ℕ → Type 0
  IsAccepted url n = (5 ≤ n) × (n ≤ 2147483647) × (valid_url url ≡ true)

  abbrev pub Accepted : {A : Type 0} → Reply A ⊎ (Bytes × ℕ) → Type 0
  Accepted (inl refused) = Unit
  Accepted (inr (url, n)) = IsAccepted url n

  module _ (A : Type 0) where
    interval-Accepted :
        (url : Bytes) (o : Option ℕ)
        → valid_url url ≡ true
        → Accepted {A = A} (checked_interval trim_space valid_url url o)
    unfolding checked_interval
    interval-Accepted url none v = tt
    interval-Accepted url (some n) v = elim (Bool-cases (ltb n 5 || ltb 2147483647 n)) [
      | inl out ↦ rw out tt
      | inr fits ↦ rw fits (ground arith, ground arith, v)
    ]

    url-Accepted :
        (url : Bytes) (o : Option ℕ) → Accepted {A = A} (checked_url trim_space valid_url url o)
    unfolding checked_url
    url-Accepted url o = elim (Bool-cases (valid_url url)) [
      | inl v ↦ rw v (interval-Accepted url o v)
      | inr bad ↦ rw bad tt
    ]

    body-Accepted :
        (o : Option MonitorRequest) → Accepted {A = A} (checked_body trim_space valid_url o)
    unfolding checked_body
    body-Accepted none = tt
    body-Accepted (some b) = url-Accepted (trim_space b.url) b.interval_seconds

    pub read_monitor-Accepted :
        (r : Upload) → Accepted {A = A} (read_monitor trim_space valid_url r)
    unfolding read_monitor
    read_monitor-Accepted r = elim (Bool-cases (is_json r.content_type)) [
      | inl json ↦ rw json (body-Accepted r.body)
      | inr other ↦ rw other tt
    ]
