-- ===== src/Server/Reply/Alike.antt =====
-- The replies of the event loops and of handleConnection in pkg/server/server.go, compared.
use fast_and_accurate_store.Base.{
  Bool, true, ◌≡◌, ◌≢◌, refl, ap, arith, str_eq_iff, ◌∷◌, ◌++◌, Bytes, codes, if◌then◌else◌,
}
use fast_and_accurate_store.Protocol.Writer.{crlf, write_string, write_null}
use fast_and_accurate_store.Server.Reply.{
  Kind, error_reply, integer_reply, null_reply, status_reply, bulk_reply, kind_of, format_as,
  format_reply, write_as, write_reply,
}

picked :
    (a b c d : Bool)
    → (if a
        then error_reply
        else if b
        then integer_reply
        else if c
        then null_reply
        else if d
        then status_reply
        else bulk_reply)
      ≡ status_reply
    → d ≡ true
picked a b c d h = ground (arith, h)

status_ok : (response : Bytes) → kind_of response ≡ status_reply → response ≡ codes "OK"
unfolding kind_of
status_ok response h = (str_eq_iff response (codes "OK")).0 (picked _ _ _ _ h)

same :
    (errorf : Bytes → Bytes) (k : Kind) (response : Bytes)
    → k ≢ error_reply
    → kind_of response ≡ k
    → write_as errorf k response ≡ format_as k response
unfolding write_as format_as write_null write_string
same errorf error_reply response h e = absurd (h refl)
same errorf integer_reply response h e = refl
same errorf null_reply response h e = refl
same errorf status_reply response h e = ap (λ r. b'+' ∷ (r ++ crlf)) (status_ok response e)
same errorf bulk_reply response h e = refl

-- The two write the same reply, unless it is an error.
pub write_reply-eq-format_reply :
    (errorf : Bytes → Bytes) (response : Bytes)
    → kind_of response ≢ error_reply
    → write_reply errorf response ≡ format_reply response
unfolding write_reply format_reply
write_reply-eq-format_reply errorf response h = same errorf (kind_of response) response h refl
