-- ===== src/Samples/HmacToken/Decision.antt =====
-- plugins/samples/hmac_token_validation/plugin.cc: which requests pass.
use service_extensions_sampl.Base.{
  Text, ℕ, ◌≡◌, refl, sym, ap, ◌∙◌, inl, inr, true, false, some, List, [], ◌∷◌, ◌++◌, append_assoc,
  arith, Option-cases, is_empty, drop, codes, text_eq_iff,
}
use service_extensions_sampl.Base.Int.{ℤ}
use service_extensions_sampl.Wasm.{request_headers, continue}
use service_extensions_sampl.Sdk.{Sdk}
use service_extensions_sampl.Samples.HmacToken.{
  Libraries, is_expired, compute_hmac_md5, check_signature, check_parts, on_request_headers,
}

module _ (lib : Libraries) {S : Type 0} (sdk : Sdk S) (secret_key : Text) where
  -- A request that passes carries a token of two parts, whose timestamp is a number that has not
  -- expired and whose other part is the hexadecimal HMAC of method, path and timestamp, one after
  -- the other, and it is not changed.
  pub record IsAuthentic (now : ℕ) (s : S) : Type 0 where
    pub auth_value : Text
    pub timestamp : Text
    pub hmac : Text
    pub time : ℤ
    pub path : Text
    pub method : Text
    pub has_auth : sdk.get_header request_headers (codes "authorization") s ≡ some auth_value
    pub not_empty : is_empty auth_value ≡ false
    pub has_scheme : lib.starts_with_ignore_case auth_value (codes "HMAC ") ≡ true
    pub has_parts : lib.str_split_once (drop 5 auth_value) b':' ≡ timestamp ∷ hmac ∷ []
    pub has_time : lib.simple_atoi timestamp ≡ some time
    pub is_fresh : is_expired now time ≡ false
    pub has_path : sdk.get_header request_headers (codes ":path") s ≡ some path
    pub has_method : sdk.get_header request_headers (codes ":method") s ≡ some method
    pub is_signed : compute_hmac_md5 lib (method ++ (path ++ timestamp)) secret_key ≡ hmac
    pub has_signature : is_empty hmac ≡ false

  signature_passes :
      (timestamp hmac : Text) (s : S)
      → (check_signature lib sdk secret_key timestamp hmac s).0 ≡ continue
      → (path : Text) × (method : Text) × (sdk.get_header request_headers (codes ":path") s
          ≡ some path)
        × (sdk.get_header request_headers (codes ":method") s ≡ some method)
        × (compute_hmac_md5 lib (method ++ (path ++ timestamp)) secret_key ≡ hmac)
        × (is_empty hmac ≡ false)
        × (check_signature lib sdk secret_key timestamp hmac s ≡ (continue, s))
  unfolding check_signature
  signature_passes timestamp hmac s h =
      elim (Option-cases (sdk.get_header request_headers (codes ":path") s)) [
        | inl e ↦ absurd (ground arith)
        | inr (path, e) ↦ elim (Option-cases (sdk.get_header request_headers (codes ":method") s)) [
          | inl g ↦ absurd (ground arith)
          | inr (method, g) ↦
              let same =
                text_eq_iff (compute_hmac_md5 lib (method ++ (path ++ timestamp)) secret_key)
                  hmac in
              (path, method, e, g, ground (arith, same), ground (arith, same), ground arith)
        ]
      ]

  parts_pass :
      (now : ℕ) (parts : List Text) (s : S)
      → (check_parts lib sdk secret_key now parts s).0 ≡ continue
      → (timestamp : Text) × (hmac : Text) × (time : ℤ) × (parts ≡ timestamp ∷ hmac ∷ [])
        × (lib.simple_atoi timestamp ≡ some time)
        × (is_expired now time ≡ false)
        × (check_parts lib sdk secret_key now parts s
            ≡ check_signature lib sdk secret_key timestamp hmac s)
  unfolding check_parts
  parts_pass now [] s h = absurd (cc)
  parts_pass now (t ∷ []) s h = absurd (cc)
  parts_pass now (t ∷ m ∷ x ∷ more) s h = absurd (cc)
  parts_pass now (t ∷ m ∷ []) s h = elim (Option-cases (lib.simple_atoi t)) [
    | inl e ↦ absurd (ground arith)
    | inr (time, e) ↦ (t, m, time, refl, e, ground arith, ground arith)
  ]

  passes_only_authentic :
      (now : ℕ) (s : S)
      → (on_request_headers lib sdk secret_key now s).0 ≡ continue
      → IsAuthentic now s × (on_request_headers lib sdk secret_key now s ≡ (continue, s))
  unfolding on_request_headers
  passes_only_authentic now s h =
      elim (Option-cases (sdk.get_header request_headers (codes "authorization") s)) [
        | inl e ↦ absurd (ground arith)
        | inr (v, e) ↦
            let parts = lib.str_split_once (drop 5 v) b':' in
            let through : on_request_headers lib sdk secret_key now s
                ≡ check_parts lib sdk secret_key now parts s =
              ground arith in
            let (t, m, time, shape, number, fresh, step) = parts_pass now parts s (ground arith) in
            let (path, method, hp, hm, signed, filled, last) =
              signature_passes t m s (ground (arith, step)) in
            (
              record {
                auth_value = v;
                timestamp = t;
                hmac = m;
                time = time;
                path = path;
                method = method;
                has_auth = e;
                not_empty = ground arith;
                has_scheme = ground arith;
                has_parts = shape;
                has_time = number;
                is_fresh = fresh;
                has_path = hp;
                has_method = hm;
                is_signed = signed;
                has_signature = filled;
              },
              through ∙ step ∙ last,
            )
      ]

  passes_authentic :
      (now : ℕ) (s : S)
      → IsAuthentic now s
      → on_request_headers lib sdk secret_key now s ≡ (continue, s)
  unfolding on_request_headers check_parts check_signature
  passes_authentic now s a = ground (
    arith,
    (text_eq_iff (compute_hmac_md5 lib (a.method ++ (a.path ++ a.timestamp)) secret_key) a.hmac).1
        a.is_signed,
  )

  -- A request passes exactly if it is authentic, and a request that passes is not changed.
  pub passes_iff_authentic :
      (now : ℕ) (s : S)
      → ((on_request_headers lib sdk secret_key now s).0 ≡ continue
          → IsAuthentic now s × (on_request_headers lib sdk secret_key now s ≡ (continue, s)))
        × (IsAuthentic now s → on_request_headers lib sdk secret_key now s ≡ (continue, s))
  passes_iff_authentic now s = (passes_only_authentic now s, passes_authentic now s)

  -- Method, path and timestamp are signed without a separator, so a token does not belong to one
  -- path: the signature of an accepted request is accepted again for any shorter path, if the digits
  -- that are cut off the path stand in front of the timestamp and the number is fresh.
  pub token_moves_to_prefix :
      (now later : ℕ) (s u : S) (a : IsAuthentic now s) (prefix digits v : Text) (time : ℤ)
      → a.path ≡ prefix ++ digits
      → sdk.get_header request_headers (codes "authorization") u ≡ some v
      → is_empty v ≡ false
      → lib.starts_with_ignore_case v (codes "HMAC ") ≡ true
      → lib.str_split_once (drop 5 v) b':' ≡ (digits ++ a.timestamp) ∷ a.hmac ∷ []
      → lib.simple_atoi (digits ++ a.timestamp) ≡ some time
      → is_expired later time ≡ false
      → sdk.get_header request_headers (codes ":path") u ≡ some prefix
      → sdk.get_header request_headers (codes ":method") u ≡ some a.method
      → on_request_headers lib sdk secret_key later u ≡ (continue, u)
  token_moves_to_prefix now later s u a prefix digits v time cut h1 h2 h3 h4 h5 h6 h7 h8 =
      let regrouped : prefix ++ (digits ++ a.timestamp) ≡ a.path ++ a.timestamp =
        sym (append_assoc prefix digits a.timestamp)
        ∙ ap (λ (t : Text). t ++ a.timestamp) (sym cut) in
      passes_authentic later u (record {
        auth_value = v;
        timestamp = digits ++ a.timestamp;
        hmac = a.hmac;
        time = time;
        path = prefix;
        method = a.method;
        has_auth = h1;
        not_empty = h2;
        has_scheme = h3;
        has_parts = h4;
        has_time = h5;
        is_fresh = h6;
        has_path = h7;
        has_method = h8;
        is_signed =
            ap (λ (t : Text). compute_hmac_md5 lib (a.method ++ t) secret_key) regrouped
            ∙ a.is_signed;
        has_signature = a.has_signature;
      })
