-- ===== src/Monitor/Favicon/Fetch/Tests.antt =====
-- A site that redirects once, links an icon and serves it. An address is a number; 9 has a port.
use uptime.Prelude.{
  ℕ, ◌≡◌, ◌≢◌, refl, true, false, some, [], ◌∷◌, length, codes, bytes_eq, fields, ◌==◌,
  if◌then◌else◌,
}
use uptime.Monitor.Favicon.Icons.{
  Web, Token, favicon_url, png_data, icon_links, icon_links_from, link_step, base_step,
}
use uptime.Monitor.Favicon.Fetch.{
  Response, redirect, answered, get, check_redirect, read, try_all, fetch,
}
use uptime.Monitor.Favicon.Fetch.Polite.{Polite, fetch-Polite}
use uptime.Monitor.Favicon.Fetch.Clean.{Clean, fetch-Clean}

abbrev link : Token
link = record {
  starts = true;
  name = codes "link";
  attrs = (codes "rel", codes "icon") ∷ (codes "href", codes "abc") ∷ [];
}

abbrev numbers : Web ℕ
numbers = record {
  parse = λ b. some (length b);
  has_user = λ u. false;
  hostname = λ u. codes "a";
  scheme = λ u. codes "https";
  port = λ u. if u == 9 then codes "8080" else [];
  resolve = λ base u. u;
  of_path = length;
  tokenize = λ b. link ∷ [];
  to_lower = λ b. b;
  png_size = λ b. some (16, 16);
  png_clean = λ b. some b;
  encode_std = λ b. b;
}

abbrev site : ℕ → ℕ → Response ℕ
site n u =
    if u == 8
    then redirect 5
    else if u == 5
    then answered 200 (some (codes "<html>"))
    else if u == 3
    then answered 200 (some (codes "PNG"))
    else redirect 9

fetched :
    fetch numbers site (λ n. false) (codes "http://a") []
    ≡ (codes "data:image/png;base64,PNG", 3 ∷ 5 ∷ 8 ∷ [])
unfolding fetch try_all read get check_redirect favicon_url png_data icon_links icon_links_from
    link_step base_step bytes_eq fields
fetched = refl

-- Where the page redirects to a port of its own, only that page and the two paths are asked.
strayed :
    (fetch numbers (λ n u. redirect 9) (λ n. false) (codes "http://a") []).1 ≡ 12 ∷ 12 ∷ 8 ∷ []
unfolding fetch try_all read get check_redirect favicon_url bytes_eq
strayed = refl

fetch-Polite_example :
    Polite numbers site 27 (fetch numbers site (λ n. false) (codes "http://a") []).1
fetch-Polite_example = fetch-Polite numbers site (λ n. false) (codes "http://a")

found : (fetch numbers site (λ n. false) (codes "http://a") []).0 ≢ []
found e = cc (fetched, e)

fetch-Clean_example : Clean numbers site (fetch numbers site (λ n. false) (codes "http://a") []).0
fetch-Clean_example = fetch-Clean numbers site (λ n. false) (codes "http://a") [] found
