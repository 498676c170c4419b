-- ===== src/Server/Messages.antt =====
-- recv_msg, clean_string and validate_int: how the server reads a line from a socket.
pub mod Reading
pub use s.Net.{Received, arrived, failed}
use s.Prelude.{ℕ, Bool, true, false, ◌&&◌, not, [], ◌∷◌, length, ltb, ◌==◌, if◌then◌else◌}
use s.Clib.{Text, c_string, isdigit}
use s.Outcome.{Result, ok, err, overflow, invalid_parameter, ◌>>=◌}

-- The text that recv_msg leaves in the caller's buffer of 512 bytes; its own, of 1024, was cleared. After -1 the target's size is
-- given as 0, which strcpy_s does not accept. A text of 512 bytes or more runs over the buffer.
unfoldable pub recv_msg : Received → Result Text
recv_msg failed = err invalid_parameter
recv_msg (arrived bytes) =
    let message = c_string bytes in if ltb (length message) 512 then ok message else err overflow

-- The bytes that clean_string keeps: all but '\b', '\n' and '\r'.
unfoldable pub is_kept : ℕ → Bool
is_kept c = not (c == 8) && (not (c == 10) && not (c == 13))

unfoldable pub kept_bytes : Text → Text
unfolding is_kept
kept_bytes [] = []
kept_bytes (c ∷ t) = let rest = kept_bytes t in if is_kept c then c ∷ rest else rest

-- The buffer holds 1024 bytes, the NUL included.
unfoldable pub clean_string : Text → Result Text
unfolding kept_bytes
clean_string t =
    let buffer = kept_bytes t in if ltb (length buffer) 1024 then ok buffer else err overflow

-- recv_msg and then clean_string, as every reader of a line does.
unfoldable pub read_line : Received → Result Text
unfolding recv_msg clean_string
read_line r = do message ← recv_msg r; clean_string message

-- Nonzero when the text has no byte but digits; the empty text passes.
unfoldable pub validate_int : Text → Bool
unfolding isdigit
validate_int [] = true
validate_int (c ∷ t) = if isdigit c then validate_int t else false
