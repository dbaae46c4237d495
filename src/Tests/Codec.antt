-- ===== src/Tests/Codec.antt =====
-- The theorems on src/ssr at concrete inputs.
use sspanel_ssr_rust_backend.Base.{
  ℕ, ◌+◌, ◌≡◌, refl, true, false, none, some, List, [], ◌∷◌, ◌++◌, length, replicate, Error, ok,
  err, arith, ◌≤◌, inl, take,
}
use sspanel_ssr_rust_backend.Base.Int.{pos}
use sspanel_ssr_rust_backend.Ssr.Protocol.{AuthAes128Md5, server_post_decrypt, server_pre_encrypt}
use sspanel_ssr_rust_backend.Ssr.Protocol.Chunks.{and_then, server_post_decrypt-append}
use sspanel_ssr_rust_backend.Base.{◌≢◌}
use sspanel_ssr_rust_backend.Ssr.Protocol.Total.{server_post_decrypt_ends}
use sspanel_ssr_rust_backend.Ssr.Protocol.RoundTrip.{server_post_decrypt-server_pre_encrypt}
use sspanel_ssr_rust_backend.Ssr.Session.{ServerSession, decrypt}
use sspanel_ssr_rust_backend.Ssr.Session.Chunks.{decrypt-append}
use sspanel_ssr_rust_backend.Base.Bytes.{IsByte, u32_le_bytes, from_u32_le}
use mathlib.Core.Path.{subst}
use sspanel_ssr_rust_backend.Base.Table
use sspanel_ssr_rust_backend.Base.{All, ◌↔◌, ap, sym, ◌∙◌}
use sspanel_ssr_rust_backend.Net.{v4, show_ip, is_utf8}
use sspanel_ssr_rust_backend.Ssr.Kdf.{hmac_md5_prefix}
use sspanel_ssr_rust_backend.Ssr.Protocol.{udp_select_user, udp_server_post_decrypt}
use sspanel_ssr_rust_backend.Ssr.Udp.{udp_decrypt_packet}
use sspanel_ssr_rust_backend.Ssr.Udp.RoundTrip.{
  udp_body, udp_server_post_decrypt-udp_body, udp_server_post_decrypt_sound,
  udp_decrypt_packet_accepts,
}
use sspanel_ssr_rust_backend.Ssr.Cipher.{
  rc4_md5_name, to_ascii_lowercase, lower_byte, iv_len, CipherKind, StreamCipher, chacha20,
  new_stream, process,
}
use sspanel_ssr_rust_backend.Ssr.Cipher.Laws.{process_twice}
use sspanel_ssr_rust_backend.Ssr.Rc4
use sspanel_ssr_rust_backend.Ssr.Rc4.Permutation.{IsPermutation, apply-new-IsPermutation}
use sspanel_ssr_rust_backend.Ssr.Address.{parse, pack_socket_addr}
use sspanel_ssr_rust_backend.Ssr.Address.Parse.{
  domain_header, parse-append_some, parse-pack_socket_addr, parse-domain_header,
}
use sspanel_ssr_rust_backend.Config.{auth_aes128_md5_name, plain_name}
use sspanel_ssr_rust_backend.Ssr.Profile
use sspanel_ssr_rust_backend.Ssr.Profile.{Profile, new_iff, cipher_kind, cipher_kind-new}
use sspanel_ssr_rust_backend.Tests.Toy.{toy, toy_sizes}

abbrev opened : AuthAes128Md5
opened = record {
  master_key = 1 ∷ 2 ∷ [];
  user_key = 3 ∷ 4 ∷ [];
  users = [];
  is_multi_user = pos 0;
  user_id = none;
  aes_key = [];
  recv_iv = 5 ∷ [];
  recv_buf = [];
  has_recv_header = true;
  recv_id = 7;
  pack_id = 7;
}

server_post_decrypt-server_pre_encrypt_example :
    server_post_decrypt opened (server_pre_encrypt opened (8 ∷ 9 ∷ [])).1
    ≡ ok (
      record opened { recv_id = (server_pre_encrypt opened (8 ∷ 9 ∷ [])).0.pack_id; recv_buf = [] },
      8 ∷ 9 ∷ [],
    )
server_post_decrypt-server_pre_encrypt_example =
    server_post_decrypt-server_pre_encrypt toy_sizes opened opened (8 ∷ 9 ∷ []) refl refl refl refl

-- A data packet cut in its length field.
server_post_decrypt-append_example :
    server_post_decrypt opened ((0x0c ∷ []) ++ (0x00 ∷ 0x11 ∷ []))
    ≡ and_then
        (server_post_decrypt opened (0x0c ∷ []))
        (λ s'. server_post_decrypt s' (0x00 ∷ 0x11 ∷ []))
server_post_decrypt-append_example =
    server_post_decrypt-append opened (0x0c ∷ []) (0x00 ∷ 0x11 ∷ [])

server_post_decrypt_ends_example :
    server_post_decrypt opened (0x0c ∷ 0x00 ∷ 0x11 ∷ 0x12 ∷ 0x13 ∷ []) ≢ err Error.stuck
server_post_decrypt_ends_example =
    server_post_decrypt_ends opened (0x0c ∷ 0x00 ∷ 0x11 ∷ 0x12 ∷ 0x13 ∷ [])

abbrev fresh : ServerSession
fresh = record {
  cipher = CipherKind.chacha20_ietf;
  master_key = replicate 32 1;
  recv_iv_buf = [];
  decryptor = none;
  protocol = none;
  users = [];
  is_multi_user = pos 0;
  send_iv = replicate 12 2;
  encryptor = chacha20 (replicate 32 1) (replicate 12 2) 0;
  send_iv_emitted = false;
}

-- A connection cut inside the IV.
decrypt-append_example :
    decrypt fresh (replicate 7 3 ++ replicate 9 4)
    ≡ and_then (decrypt fresh (replicate 7 3)) (λ s'. decrypt s' (replicate 9 4))
decrypt-append_example = decrypt-append fresh (replicate 7 3) (replicate 9 4)

-- One user, with uid 5.
abbrev one_user : List (ℕ × List ℕ)
one_user = (5, 6 ∷ 7 ∷ []) ∷ []

selects : udp_select_user (1 ∷ []) one_user (pos 0) (replicate 12 2) 5 ≡ (6 ∷ 7 ∷ [], some 5)
unfolding udp_select_user Table.get
selects = refl

abbrev signed_body : List ℕ
signed_body = 9 ∷ 5 ∷ 0 ∷ 0 ∷ 0 ∷ 7 ∷ 7 ∷ 7 ∷ 7 ∷ []

signed_body_lem : udp_body (6 ∷ 7 ∷ []) 5 (9 ∷ []) ≡ signed_body
unfolding udp_body hmac_md5_prefix u32_le_bytes take
signed_body_lem = refl

accepted :
    udp_server_post_decrypt (1 ∷ []) one_user (pos 0) (replicate 12 2) signed_body
    ≡ ok (9 ∷ [], some 5)
accepted =
    ap (udp_server_post_decrypt (1 ∷ []) one_user (pos 0) (replicate 12 2)) (sym signed_body_lem)
    ∙ udp_server_post_decrypt-udp_body toy_sizes (1 ∷ []) one_user (pos 0) (replicate 12 2) 5
        (9 ∷ []) (6 ∷ 7 ∷ []) (some 5) (omega arith) selects

udp_server_post_decrypt_sound_example :
    (uid : List ℕ) × (length uid ≡ 4)
    × (some 5 ≡ (udp_select_user (1 ∷ []) one_user (pos 0) (replicate 12 2) (from_u32_le uid)).1)
    × (signed_body
        ≡ ((9 ∷ []) ++ uid)
          ++ hmac_md5_prefix
              (udp_select_user (1 ∷ []) one_user (pos 0) (replicate 12 2) (from_u32_le uid)).0
              ((9 ∷ []) ++ uid)
              4)
udp_server_post_decrypt_sound_example =
    udp_server_post_decrypt_sound toy_sizes (1 ∷ []) one_user (pos 0) (replicate 12 2) signed_body
      (9 ∷ []) (some 5) accepted

abbrev stream : StreamCipher
stream = chacha20 (replicate 32 1) (replicate 12 2) 0

made : new_stream CipherKind.chacha20_ietf (replicate 32 1) (replicate 12 2) ≡ ok stream
unfolding new_stream
made = refl

selects_long :
    udp_select_user (replicate 32 1) one_user (pos 0) (replicate 12 2) 5 ≡ (6 ∷ 7 ∷ [], some 5)
unfolding udp_select_user Table.get
selects_long = refl

udp_decrypt_packet_accepts_example :
    udp_decrypt_packet
      (replicate 32 1)
      one_user
      (pos 0)
      (replicate 12 2 ++ (process stream (udp_body (6 ∷ 7 ∷ []) 5 (9 ∷ []))).1)
      CipherKind.chacha20_ietf
    ≡ ok (9 ∷ [], some 5)
udp_decrypt_packet_accepts_example =
    udp_decrypt_packet_accepts toy_sizes CipherKind.chacha20_ietf (replicate 32 1) one_user (pos 0)
      (replicate 12 2) 5 (9 ∷ []) (6 ∷ 7 ∷ []) (some 5) stream (omega arith) (unfold iv_len in refl)
      made selects_long
      (subst (All IsByte) (sym signed_body_lem) (
        omega arith,
        (
          omega arith,
          (
            omega arith,
            (
              omega arith,
              (omega arith, (omega arith, (omega arith, (omega arith, (omega arith, tt))))),
            ),
          ),
        ),
      ))

process_twice_example :
    process (chacha20 [] [] 250) (process (chacha20 [] [] 250) (1 ∷ 2 ∷ [])).1
    ≡ ((process (chacha20 [] [] 250) (1 ∷ 2 ∷ [])).0, 1 ∷ 2 ∷ [])
process_twice_example =
    process_twice toy_sizes (chacha20 [] [] 250) (1 ∷ 2 ∷ []) tt (omega arith, (omega arith, tt))

apply-new-IsPermutation_example :
    IsPermutation (Rc4.apply (Rc4.new (1 ∷ 2 ∷ 3 ∷ [])) (4 ∷ 5 ∷ [])).0.s
apply-new-IsPermutation_example = apply-new-IsPermutation (1 ∷ 2 ∷ 3 ∷ []) (4 ∷ 5 ∷ [])

parse-pack_socket_addr_example :
    parse (pack_socket_addr (v4 0x7f000001) 443 ++ (1 ∷ []))
    ≡ ok (
        some (
          record { host = show_ip (v4 0x7f000001); port = 443 },
          length (pack_socket_addr (v4 0x7f000001) 443),
        ))
parse-pack_socket_addr_example =
    parse-pack_socket_addr (v4 0x7f000001) 443 (1 ∷ []) (omega arith) (omega arith)

abbrev host : List ℕ
host = b'a' ∷ b'.' ∷ b'b' ∷ []

host_utf8 : is_utf8 host ≡ true
unfolding is_utf8
host_utf8 = refl

parse-domain_header_example :
    parse (domain_header host 80 ++ (1 ∷ []))
    ≡ ok (some (record { host = host; port = 80 }, length host + 4))
parse-domain_header_example = parse-domain_header host 80 (1 ∷ []) host_utf8 (omega arith)

parse-append_some_example :
    (length host + 4 ≤ length (domain_header host 80 ++ []))
    × (parse ((domain_header host 80 ++ []) ++ (1 ∷ []))
        ≡ ok (some (record { host = host; port = 80 }, length host + 4)))
parse-append_some_example =
    parse-append_some (domain_header host 80 ++ []) (1 ∷ []) (record { host = host; port = 80 })
      (length host + 4) (parse-domain_header host 80 [] host_utf8 (omega arith))

abbrev shouted : List ℕ
shouted = b'R' ∷ b'C' ∷ b'4' ∷ b'-' ∷ b'M' ∷ b'D' ∷ b'5' ∷ []

abbrev named : Profile
named = record {
  method = rc4_md5_name;
  protocol = auth_aes128_md5_name;
  obfs = plain_name;
  timeout_secs = 300;
}

new_iff_example : (Profile.new shouted auth_aes128_md5_name plain_name 300 ≡ ok named) ↔ (
    Profile.IsMethod named.method
    × (named.protocol ≡ auth_aes128_md5_name)
    × (named.obfs ≡ plain_name)
    × (to_ascii_lowercase shouted ≡ named.method)
    × (to_ascii_lowercase auth_aes128_md5_name ≡ named.protocol)
    × (to_ascii_lowercase plain_name ≡ named.obfs)
    × (300 ≡ named.timeout_secs))
new_iff_example = new_iff shouted auth_aes128_md5_name plain_name 300 named

built : Profile.new shouted auth_aes128_md5_name plain_name 300 ≡ ok named
unfolding to_ascii_lowercase lower_byte
built =
    (new_iff shouted auth_aes128_md5_name plain_name 300 named).1
      (inl refl, refl, refl, refl, refl, refl, refl)

cipher_kind-new_example : (kind : CipherKind) × (cipher_kind named ≡ ok kind)
cipher_kind-new_example = cipher_kind-new shouted auth_aes128_md5_name plain_name 300 named built
