-- ===== src/Ssr/Protocol/Header.antt =====
-- The auth header of src/ssr/protocol.rs: what a longer buffer changes.
use sspanel_ssr_rust_backend.Base.{
  ℕ, ◌+◌, ◌-◌, ◌≤◌, ◌≡◌, true, Option, none, some, List, arith, length, length-append, slice,
  slice-append, drop-append, Error, ok, err, nat_eq,
}
use sspanel_ssr_rust_backend.Base.Bytes.{from_u32_le}
use sspanel_ssr_rust_backend.Ssr.Crypto.{Crypto}
use sspanel_ssr_rust_backend.Ssr.Protocol.{
  AuthAes128Md5, u16_le, aes_decrypt_block, select_user, header_mac_key, close_auth, open_auth,
  read_header, feed,
}

module _ ⦃c : Crypto⦄ where
  -- Selecting a user looks at neither the buffer nor the key that was selected before.
  pub select_user-feed :
      (s : AuthAes128Md5) (more : List ℕ) (uid : ℕ)
      → select_user (feed s more) uid ≡ feed (select_user s uid) more
  unfolding select_user
  select_user-feed s more uid = ground arith

  pub select_user_twice :
      (s : AuthAes128Md5) (uid : ℕ) → select_user (select_user s uid) uid ≡ select_user s uid
  unfolding select_user
  select_user_twice s uid = ground arith

  pub select_user_keeps :
      (s : AuthAes128Md5) (uid : ℕ)
      → (header_mac_key (select_user s uid) ≡ header_mac_key s)
        × ((select_user s uid).recv_buf ≡ s.recv_buf)
        × ((select_user s uid).has_recv_header ≡ s.has_recv_header)
  unfolding select_user
  select_user_keeps s uid = ground arith

  module _ (s : AuthAes128Md5) (more : List ℕ) where
    close_auth-feed_ok :
        (len rnd_len : ℕ) (t : AuthAes128Md5) (out : Option (List ℕ))
        → 31 ≤ len
        → len ≤ length s.recv_buf
        → close_auth s len rnd_len ≡ ok (t, out)
        → close_auth (feed s more) len rnd_len ≡ ok (feed t more, out)
    unfolding close_auth
    close_auth-feed_ok len rnd_len t out h k e = ground (
      arith,
      slice-append s.recv_buf more 0 (len - 4),
      slice-append s.recv_buf more (len - 4) len,
      slice-append s.recv_buf more (31 + rnd_len) (len - 4),
      drop-append len s.recv_buf more,
    )

    close_auth-feed_err :
        (len rnd_len : ℕ) (e : Error)
        → 31 ≤ len
        → len ≤ length s.recv_buf
        → close_auth s len rnd_len ≡ err e
        → close_auth (feed s more) len rnd_len ≡ err e
    unfolding close_auth
    close_auth-feed_err len rnd_len e h k q = ground (
      arith,
      slice-append s.recv_buf more 0 (len - 4),
      slice-append s.recv_buf more (len - 4) len,
    )

    -- Once the header block is there, a verdict does not change when bytes are added behind.
    open_auth-feed_ok :
        (t : AuthAes128Md5) (out : List ℕ)
        → 31 ≤ length s.recv_buf
        → open_auth s ≡ ok (t, some out)
        → open_auth (feed s more) ≡ ok (feed t more, some out)
    unfolding open_auth aes_decrypt_block
    open_auth-feed_ok t out h e =
        let head = aes_decrypt_block s (slice s.recv_buf 11 27) in
        let len = u16_le (slice head 12 14) in
        ground (
          arith,
          length-append s.recv_buf more,
          slice-append s.recv_buf more 11 27,
          close_auth-feed_ok len (u16_le (slice head 14 16)) t (some out),
        )

    open_auth-feed_err :
        (e : Error) → 31 ≤ length s.recv_buf → open_auth s ≡ err e → open_auth (feed s more) ≡ err e
    unfolding open_auth aes_decrypt_block
    open_auth-feed_err e h q =
        let head = aes_decrypt_block s (slice s.recv_buf 11 27) in
        let len = u16_le (slice head 12 14) in
        ground (
          arith,
          length-append s.recv_buf more,
          slice-append s.recv_buf more 11 27,
          close_auth-feed_err len (u16_le (slice head 14 16)) e,
        )

  -- Waiting for the rest of the auth packet leaves the state as it is.
  pub close_auth_some :
      (s t : AuthAes128Md5) (len rnd_len : ℕ) → close_auth s len rnd_len ≡ ok (t, none) → ⊥
  unfolding close_auth
  close_auth_some s t len rnd_len h = ground arith

  pub open_auth_waits : (s t : AuthAes128Md5) → open_auth s ≡ ok (t, none) → t ≡ s
  unfolding open_auth
  open_auth_waits s t e =
      let head = aes_decrypt_block s (slice s.recv_buf 11 27) in
      ground (arith, close_auth_some s t (u16_le (slice head 12 14)) (u16_le (slice head 14 16)))

  -- The uid of the auth header.
  abbrev pub header_uid : AuthAes128Md5 → ℕ
  header_uid s = from_u32_le (slice s.recv_buf 7 11)

  module _ (s : AuthAes128Md5) (more : List ℕ) where
    pub read_header-feed-some :
        (t : AuthAes128Md5) (out : List ℕ)
        → read_header s ≡ ok (t, some out)
        → read_header (feed s more) ≡ ok (feed t more, some out)
    unfolding read_header
    read_header-feed-some t out e = ground (
      arith,
      length-append s.recv_buf more,
      slice-append s.recv_buf more 0 1,
      slice-append s.recv_buf more 1 7,
      slice-append s.recv_buf more 7 27,
      slice-append s.recv_buf more 27 31,
      slice-append s.recv_buf more 7 11,
      select_user-feed s more (header_uid s),
      select_user_keeps s (header_uid s),
      open_auth-feed_ok (select_user s (header_uid s)) more t out,
    )

    pub read_header-feed_err :
        (e : Error) → read_header s ≡ err e → read_header (feed s more) ≡ err e
    unfolding read_header
    read_header-feed_err e q = ground (
      arith,
      length-append s.recv_buf more,
      slice-append s.recv_buf more 0 1,
      slice-append s.recv_buf more 1 7,
      slice-append s.recv_buf more 7 27,
      slice-append s.recv_buf more 27 31,
      slice-append s.recv_buf more 7 11,
      select_user-feed s more (header_uid s),
      select_user_keeps s (header_uid s),
      open_auth-feed_err (select_user s (header_uid s)) more e,
    )

    -- After a wait the selected user is selected again, from the same uid.
    pub read_header-feed-none :
        (t : AuthAes128Md5)
        → read_header s ≡ ok (t, none)
        → read_header (feed t more) ≡ read_header (feed s more)
    unfolding read_header
    read_header-feed-none t e = ground (
      arith,
      length-append s.recv_buf more,
      slice-append s.recv_buf more 0 1,
      slice-append s.recv_buf more 1 7,
      slice-append s.recv_buf more 7 27,
      slice-append s.recv_buf more 27 31,
      slice-append s.recv_buf more 7 11,
      select_user-feed s more (header_uid s),
      select_user-feed (select_user s (header_uid s)) more (header_uid s),
      select_user_twice s (header_uid s),
      select_user_keeps s (header_uid s),
      open_auth_waits (select_user s (header_uid s)) t,
    )

  pub read_header_wait :
      (s t : AuthAes128Md5) → read_header s ≡ ok (t, none) → t.has_recv_header ≡ s.has_recv_header
  unfolding read_header
  read_header_wait s t e =
      ground (
        arith,
        select_user_keeps s (header_uid s),
        open_auth_waits (select_user s (header_uid s)) t,
      )

  pub read_header_opens :
      (s t : AuthAes128Md5) (out : List ℕ)
      → read_header s ≡ ok (t, some out)
      → t.has_recv_header ≡ true
  unfolding read_header open_auth close_auth
  read_header_opens s t out e = ground arith
