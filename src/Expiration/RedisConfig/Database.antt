-- ===== src/Expiration/RedisConfig/Database.antt =====
-- The database that the queue connects to.
use polyglot_ticketing_v.Base.{
  ok_injective, err-ne-ok, ℕ, pos, negsuc, String, ◌≡◌, inl, inr, refl, sym, ap, ◌∙◌, true, false,
  Bool-cases, ◌||◌, Option, some, ok, >>=-eq-ok, default_to, str_eq, eq_iff, arith,
}
use polyglot_ticketing_v.Base.Text.{append, slice_from}
use polyglot_ticketing_v.Base.Text.Cutting.{slice_from-append}
use polyglot_ticketing_v.Platform.Numbers.{JsNumber, whole, not_whole, NumberApi}
use polyglot_ticketing_v.Platform.Urls.{UrlApi}
use polyglot_ticketing_v.Expiration.RedisConfig.{
  ConnectionOptions, is_rejected, database_of, options_of, redis_connection_options,
}

module _ (urls : UrlApi) (numbers : NumberApi) where
  open urls use {Url, parse, pathname, hostname}
  open numbers use {number, decimal, number-empty, number-decimal}

  accepted : (db : JsNumber) → is_rejected db ≡ false → (n : ℕ) × (db ≡ whole (pos n))
  accepted (whole (pos n)) h = (n, refl)
  accepted (whole (negsuc n)) h = absurd (ground arith)
  accepted not_whole h = absurd (ground arith)

  options_of-db :
      (url : Url) (o : ConnectionOptions)
      → options_of urls numbers url ≡ ok o
      → (n : ℕ) × (o.db ≡ whole (pos n)) × (database_of urls numbers (pathname url) ≡ whole (pos n))
  options_of-db url o h =
      elim (Bool-cases (is_rejected (database_of urls numbers (pathname url)))) [
        | inl rejected ↦ absurd (err-ne-ok (rw rejected at h))
        | inr taken ↦
            let (n, natural) = accepted (database_of urls numbers (pathname url)) taken in
            (n, ap (λ c. c.db) (sym (ok_injective (rw taken at h))) ∙ natural, natural)
      ]

  -- Where options are given, the database is a natural number.
  pub redis_connection_options-natural :
      (redis_url : Option String) (o : ConnectionOptions)
      → redis_connection_options urls numbers redis_url ≡ ok o
      → (n : ℕ) × (o.db ≡ whole (pos n))
  unfolding redis_connection_options
  redis_connection_options-natural redis_url o h =
      let (url, parsed, given) =
        >>=-eq-ok (parse (default_to "redis://localhost:6379" redis_url)) (options_of urls numbers)
          h in
      let (n, natural, read) = options_of-db url o given in (n, natural)

  slice_slash : (s : String) → slice_from 1 (append "/" s) ≡ s
  slice_slash s = slice_from-append "/" s

  -- A path without an index.
  no_index : (s : String) → (str_eq (append "/" s) "" || str_eq (append "/" s) "/") ≡ true → s ≡ ""
  unfolding slice_from
  no_index s h = elim (Bool-cases (str_eq (append "/" s) "")) [
    | inl empty ↦
        sym (slice_slash s) ∙ ap (λ p. slice_from 1 p) ((eq_iff (append "/" s) "").0 empty)
    | inr other ↦
        sym (slice_slash s)
        ∙ ap (λ p. slice_from 1 p) ((eq_iff (append "/" s) "/").0 (rw other at h))
  ]

  database_of-decimal : (n : ℕ) → database_of urls numbers (append "/" (decimal n)) ≡ whole (pos n)
  database_of-decimal n =
      elim (Bool-cases
        (str_eq (append "/" (decimal n)) "" || str_eq (append "/" (decimal n)) "/")) [
          | inl bare ↦
              rw bare
                (sym number-empty ∙ ap number (sym (no_index (decimal n) bare)) ∙ number-decimal n)
          | inr indexed ↦ rw indexed (ap number (slice_slash (decimal n)) ∙ number-decimal n)
        ]

  -- The database of a URL comes back: the URL with the decimal text of a number as its path gives
  -- the options of that database.
  pub redis_connection_options-database :
      (redis_url : String) (url : Url) (n : ℕ)
      → parse redis_url ≡ ok url
      → pathname url ≡ append "/" (decimal n)
      → (o : ConnectionOptions) × (redis_connection_options urls numbers (some redis_url) ≡ ok o)
        × (o.db ≡ whole (pos n))
        × (o.host ≡ hostname url)
  unfolding redis_connection_options
  redis_connection_options-database redis_url url n parsed path =
      let natural = ap (database_of urls numbers) path ∙ database_of-decimal n in
      rw (parsed, natural) (_, refl, refl, refl)
