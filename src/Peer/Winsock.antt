-- ===== src/Peer/Winsock.antt =====
-- The constructors of PeerServer and PeerClient: the start of Winsock, of which they want version 2.2.
use s.Prelude.{ℕ, ◌+◌, ◌*◌, ◌/◌, ◌%◌, not, ◌||◌, ◌==◌, if◌then◌else◌}

-- MAKEWORD, LOBYTE and HIBYTE.
unfoldable pub make_word : ℕ → ℕ → ℕ
make_word low high = low + high * 256

unfoldable pub low_byte : ℕ → ℕ
low_byte w = w % 256

unfoldable pub high_byte : ℕ → ℕ
high_byte w = w / 256 % 256

-- WSAStartup fails; it gives another version, and Winsock is cleaned up again; or it is started.
pub data Start : Type 0 where
  no_library wrong_version started : Start

-- `error` is what WSAStartup returns, and `version` the word wVersion that it fills in.
unfoldable pub start_winsock : ℕ → ℕ → Start
unfolding low_byte high_byte
start_winsock error version =
    if not (error == 0)
    then no_library
    else if not (low_byte version == 2) || not (high_byte version == 2)
    then wrong_version
    else started
