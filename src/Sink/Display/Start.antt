-- ===== src/Sink/Display/Start.antt =====
-- sink/WifiDisplaySink.cpp: `ParseURL`, and `onMessageReceived` at kWhatStart. `strtoul` is that of
-- the C library in base 10: the value, and how many bytes it reads.
use how_to_miracast_on_aosp.Prelude.{
  ℕ, ◌<◌, ◌≡◌, ◌≢◌, refl, Bool, true, false, not, ◌&&◌, ◌||◌, [], ◌∷◌, ◌++◌, Option, none, some,
  ltb, ◌==◌, if◌then◌else◌, Bytes, length, drop, arith,
}
use how_to_miracast_on_aosp.Prelude.Int.{minus_one}
use how_to_miracast_on_aosp.Sink.Display.{undefined, connecting, Sink, M, modify}
use how_to_miracast_on_aosp.Rtsp.Machine.{◌>>◌, return, check}
use how_to_miracast_on_aosp.Rtsp.Text.{text, is_empty, has_prefix, split_at}

pub record Url : Type 0 where
  pub host : Bytes
  pub port : ℕ
  pub path : Bytes
  pub user : Bytes
  pub pass : Bytes

unfoldable pub split_path : Bytes → Bytes × Bytes
split_path rest = elim (split_at b'/' rest) [ none ↦ (rest, b'/' ∷ []) | some parts ↦ parts ]

-- The host, the user and the password.
unfoldable pub split_user : Bytes → Bytes × Bytes × Bytes
split_user host = elim (split_at b'@' host) [
  | none ↦ (host, [], [])
  | some (who, at) ↦ elim (split_at b':' who) [
    | none ↦ (drop 1 at, who, [])
    | some (user, pass) ↦ (drop 1 at, user, drop 1 pass)
  ]
]

module _ (strtoul : Bytes → ℕ × ℕ) where
  unfoldable pub split_port : Bytes → Option (Bytes × ℕ)
  split_port host = elim (split_at b':' host) [
    | none ↦ some (host, 554)
    | some (name, colon) ↦
        let digits = drop 1 colon in
        let (x, used) = strtoul digits in
        if used == 0 || (ltb used (length digits) || not (ltb x 65536))
        then none
        else some (name, x)
  ]

  unfoldable pub parse_url : Bytes → Option Url
  parse_url url =
      if has_prefix (text "rtsp://") url
      then (let (whole, path) = split_path (drop 7 url) in
          let (at, user, pass) = split_user whole in
          elim (split_port at) [
            | none ↦ none
            | some (host, port) ↦
                some (record { host = host; port = port; path = path; user = user; pass = pass })
          ])
      else none

  -- The two forms of `start`.
  pub data Target : Type 0 where
    to_uri : Bytes → Target
    to_host : Bytes → ℕ → Target

  -- With what `createRTSPClient` answers; gives the host and the port it is called with.
  unfoldable pub on_start : Target → ℕ → ℕ → M (Bytes × ℕ)
  unfolding parse_url
  on_start (to_uri uri) status id = elim (parse_url uri) [
    | none ↦ check false >> return ([], 0)
    | some u ↦ do
      check (is_empty u.user && is_empty u.pass)
      modify λ s. record s { setup_uri = uri; rtsp_host = u.host }
      check (status == 0)
      modify λ s. record s { session_id = id; state = connecting }
      return (u.host, u.port)
  ]
  on_start (to_host host port) status id = do
    modify λ s. record s { rtsp_host = host }
    check (status == 0)
    modify λ s. record s { session_id = id; state = connecting }
    return (host, port)

-- `case kWhatStop`.
unfoldable pub on_stop : M (Unit {0})
on_stop = modify λ s. record s { stopped = true }

-- The constructor.
abbrev pub new_sink : Sink
new_sink = record {
  state = undefined;
  session_id = 0;
  next_cseq = 1;
  setup_uri = [];
  rtsp_host = [];
  playback_session_id = [];
  playback_session_timeout_secs = minus_one;
  response_handlers = [];
  rtp_sink = false;
  stopped = false;
}

-- The byte does not stand in the text.
abbrev pub is_free : ℕ → Bytes → Bool
is_free c [] = true
is_free c (b ∷ bs) = not (b == c) && is_free c bs

split_at-append :
    (c : ℕ) (xs ys : Bytes) → is_free c xs ≡ true → split_at c (xs ++ c ∷ ys) ≡ some (xs, c ∷ ys)
unfolding split_at
split_at-append c [] ys h = ground arith
split_at-append c (x ∷ xs) ys h = ground (arith, split_at-append c xs ys)

split_at-free : (c : ℕ) (xs : Bytes) → is_free c xs ≡ true → split_at c xs ≡ none
unfolding split_at
split_at-free c [] h = refl
split_at-free c (x ∷ xs) h = ground (arith, split_at-free c xs)

is_free-append :
    (c : ℕ) (xs ys : Bytes)
    → is_free c xs ≡ true
    → is_free c ys ≡ true
    → is_free c (xs ++ ys) ≡ true
is_free-append c [] ys h k = k
is_free-append c (x ∷ xs) ys h k = ground (arith, is_free-append c xs ys)

-- What stands between "rtsp://" and the path: user, password, host and port.
abbrev pub authority : Bytes → Bytes → Bytes → Bytes → Bytes
authority user pass host digits = (user ++ b':' ∷ pass) ++ b'@' ∷ (host ++ b':' ∷ digits)

module _ (strtoul : Bytes → ℕ × ℕ) (user pass host digits path : Bytes) (port : ℕ) where
  split_path-authority :
      is_free b'/' (authority user pass host digits) ≡ true
      → split_path (authority user pass host digits ++ b'/' ∷ path)
        ≡ (authority user pass host digits, b'/' ∷ path)
  unfolding split_path
  split_path-authority free =
      rw (split_path, split_at-append b'/' (authority user pass host digits) path free) refl

  split_user-authority :
      is_free b':' user ≡ true
      → is_free b'@' (user ++ b':' ∷ pass) ≡ true
      → split_user (authority user pass host digits) ≡ (host ++ b':' ∷ digits, user, pass)
  unfolding split_user
  split_user-authority colon_free at_free =
      rw
        (
          split_user,
          split_at-append b'@' (user ++ b':' ∷ pass) (host ++ b':' ∷ digits) at_free,
          split_at-append b':' user pass colon_free,
        )
        refl

  split_port-authority :
      is_free b':' host ≡ true
      → digits ≢ []
      → strtoul digits ≡ (port, length digits)
      → port < 65536
      → split_port strtoul (host ++ b':' ∷ digits) ≡ some (host, port)
  unfolding split_port
  split_port-authority host_free some_digits reads small =
      rw (split_port, split_at-append b':' host digits host_free, reads) (ends digits some_digits)
    where
      ends :
          (ds : Bytes)
          → ds ≢ []
          → let all : Option (Bytes × ℕ) = some (host, port) in
            (if length ds == 0 || (ltb (length ds) (length ds) || not (ltb port 65536))
              then none
              else all)
            ≡ all
      ends [] h = absurd (h refl)
      ends (d ∷ ds) h = ground arith

  -- `ParseURL` takes a URL apart into what it was put together from, if strtoul reads all of the
  -- port's digits to a number below 65536, and none of '/', ':' and '@' stands where it would end a
  -- part early.
  pub parse_url-authority :
      is_free b':' user ≡ true
      → is_free b':' host ≡ true
      → is_free b'@' (user ++ b':' ∷ pass) ≡ true
      → is_free b'/' (authority user pass host digits) ≡ true
      → digits ≢ []
      → strtoul digits ≡ (port, length digits)
      → port < 65536
      → parse_url strtoul (text "rtsp://" ++ (authority user pass host digits ++ b'/' ∷ path))
        ≡ some (record { host = host; port = port; path = b'/' ∷ path; user = user; pass = pass })
  unfolding parse_url has_prefix text
  parse_url-authority colon_free host_free at_free slash_free some_digits reads small =
      rw
        (
          split_path-authority slash_free,
          split_user-authority colon_free at_free,
          split_port-authority host_free some_digits reads small,
          split_path-authority slash_free,
          split_user-authority colon_free at_free,
        )
        refl
