-- ===== src/Samples/HmacAuthCookie/Decision.antt =====
-- plugins/samples/hmac_authcookie/plugin.cc: which requests pass.
use service_extensions_sampl.Base.{
  Text, ℕ, ◌≡◌, sym, inl, inr, false, some, arith, Option-cases, codes, text_eq_iff,
}
use service_extensions_sampl.Base.Int.{ℤ, ltb_ℤ}
use service_extensions_sampl.Wasm.{request_headers, continue}
use service_extensions_sampl.Sdk.{Sdk}
use service_extensions_sampl.Samples.HmacAuthCookie.{
  Libraries, is_hash_timestamp_valid, find_ip, find_authorization, parse_authorization_cookie,
  compute_hmac_signature, check_payload, check_cookies, on_request_headers,
}

module _ (lib : Libraries) {S : Type 0} (sdk : Sdk S) where
  -- The cookie of a request is signed for the first address of `X-Forwarded-For`, and its time is
  -- not over.
  pub record IsSignedFor (now : ℕ) (s : S) : Type 0 where
    pub ips : Text
    pub ip : Text
    pub cookies : Text
    pub token : Text
    pub payload : Text
    pub hash : Text
    pub time : ℤ
    pub has_ips : sdk.get_header request_headers (codes "X-Forwarded-For") s ≡ some ips
    pub has_ip : find_ip lib (lib.str_split ips b',') ≡ some ip
    pub has_cookies : sdk.get_header request_headers (codes "Cookie") s ≡ some cookies
    pub has_token : find_authorization lib (lib.str_split_text cookies (codes "; ")) ≡ some token
    pub has_parts : parse_authorization_cookie lib token ≡ some (payload, hash)
    pub is_signed : compute_hmac_signature lib payload ≡ hash
    pub is_own : (lib.split_pair payload (codes ",")).0 ≡ ip
    pub has_time : lib.simple_atoi (lib.split_pair payload (codes ",")).1 ≡ some time
    pub is_fresh : ltb_ℤ time now ≡ false

  payload_passes :
      (now : ℕ) (ip payload hash : Text) (s : S)
      → (check_payload lib sdk now ip payload hash s).0 ≡ continue
      → (time : ℤ) × (compute_hmac_signature lib payload ≡ hash)
        × ((lib.split_pair payload (codes ",")).0 ≡ ip)
        × (lib.simple_atoi (lib.split_pair payload (codes ",")).1 ≡ some time)
        × (ltb_ℤ time now ≡ false)
        × (check_payload lib sdk now ip payload hash s ≡ (continue, s))
  unfolding check_payload is_hash_timestamp_valid
  payload_passes now ip payload hash s h =
      let signed = text_eq_iff (compute_hmac_signature lib payload) hash in
      let own = text_eq_iff ip (lib.split_pair payload (codes ",")).0 in
      elim (Option-cases (lib.simple_atoi (lib.split_pair payload (codes ",")).1)) [
        | inl e ↦ absurd (ground arith)
        | inr (time, e) ↦
            (time, ground (arith, signed), ground (arith, own), e, ground arith, ground arith)
      ]

  passes_only_signed :
      (now : ℕ) (s u : S)
      → on_request_headers lib sdk now s ≡ some (continue, u)
      → IsSignedFor now s × (u ≡ s)
  unfolding on_request_headers check_cookies
  passes_only_signed now s u h =
      elim (Option-cases (sdk.get_header request_headers (codes "X-Forwarded-For") s)) [
        | inl a ↦ absurd (ground arith)
        | inr (ips, a) ↦ elim (Option-cases (find_ip lib (lib.str_split ips b','))) [
          | inl b ↦ absurd (ground arith)
          | inr (ip, b) ↦ elim (Option-cases (sdk.get_header request_headers (codes "Cookie") s)) [
            | inl c ↦ absurd (ground arith)
            | inr (cookies, c) ↦
                elim (Option-cases
                  (find_authorization lib (lib.str_split_text cookies (codes "; ")))) [
                    | inl d ↦ absurd (ground arith)
                    | inr (token, d) ↦ elim (Option-cases (parse_authorization_cookie lib token)) [
                      | inl e ↦ absurd (ground arith)
                      | inr ((payload, hash), e) ↦
                          let (time, signed, own, number, fresh, through) =
                            payload_passes now ip payload hash s (ground arith) in
                          (
                            record {
                              ips = ips;
                              ip = ip;
                              cookies = cookies;
                              token = token;
                              payload = payload;
                              hash = hash;
                              time = time;
                              has_ips = a;
                              has_ip = b;
                              has_cookies = c;
                              has_token = d;
                              has_parts = e;
                              is_signed = signed;
                              is_own = own;
                              has_time = number;
                              is_fresh = fresh;
                            },
                            ground (arith, through),
                          )
                    ]
                  ]
          ]
        ]
      ]

  -- A request passes exactly if its cookie is signed for its address and the clock is not past the
  -- expiration time, which itself still passes; and a request that passes is not changed.
  pub passes_iff_signed :
      (now : ℕ) (s : S)
      → ((u : S)
          → on_request_headers lib sdk now s ≡ some (continue, u)
          → IsSignedFor now s × (u ≡ s))
        × (IsSignedFor now s → on_request_headers lib sdk now s ≡ some (continue, s))
  unfolding on_request_headers check_cookies check_payload is_hash_timestamp_valid
  passes_iff_signed now s = (
    passes_only_signed now s,
    λ a. ground (
      arith,
      (text_eq_iff (compute_hmac_signature lib a.payload) a.hash).1 a.is_signed,
      (text_eq_iff a.ip (lib.split_pair a.payload (codes ",")).0).1 (sym a.is_own),
    ),
  )
