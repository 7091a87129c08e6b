-- ===== src/EventLoop/Gate.antt =====
-- The authentication gate of the event loops, in pkg/server/eventloop_linux.go and
-- pkg/server/eventloop_darwin.go.
use fast_and_accurate_store.Base.{
  Bool, true, not, ◌&&◌, Option, none, some, List, [], ◌∷◌, ◌++◌, Bytes, codes, str_eq,
  if◌then◌else◌,
}
use fast_and_accurate_store.Protocol.Text.{to_upper}
use fast_and_accurate_store.Protocol.Writer.{crlf}
use fast_and_accurate_store.Protocol.Command.{Command}
use fast_and_accurate_store.EventLoop.Client.{ClientState, queue_write}

abbrev pub noauth_reply : Bytes
noauth_reply = codes "-NOAUTH Authentication required" ++ crlf

abbrev pub auth_arity_reply : Bytes
auth_arity_reply = codes "-ERR wrong number of arguments for 'auth' command" ++ crlf

abbrev pub auth_ok_reply : Bytes
auth_ok_reply = codes "+OK" ++ crlf

abbrev pub bad_password_reply : Bytes
bad_password_reply = codes "-ERR invalid password" ++ crlf

abbrev pub only_arg : List Bytes → Option Bytes
only_arg [] = none
only_arg (arg ∷ []) = some arg
only_arg (arg ∷ other ∷ args) = none

-- What an AUTH command comes to: whether the connection is authenticated, and the reply.
unfoldable pub check_password : Bytes → Bool → Option Bytes → Bool × Bytes
check_password password authed none = (authed, auth_arity_reply)
check_password password authed (some arg) =
    if str_eq arg password then (true, auth_ok_reply) else (authed, bad_password_reply)

-- What a command comes to that the gate holds back.
unfoldable pub verdict : Bytes → Bool → Command → Bool × Bytes
unfolding check_password
verdict password authed cmd =
    if str_eq (to_upper cmd.name) (codes "AUTH")
    then check_password password authed (only_arg cmd.args)
    else (authed, noauth_reply)

-- The gate's part of the loop, for a command that it holds back.
unfoldable pub authenticate : (Bytes → Bool) → Bytes → ClientState → Command → ClientState
unfolding queue_write
authenticate ctl password c cmd =
    queue_write ctl (record c { authed = (verdict password c.authed cmd).0 })
      (verdict password c.authed cmd).1

-- Whether the gate holds the command back. `required` is `AuthEnabled` in the Linux loop, and
-- `Password != ""` in the Darwin loop.
unfoldable pub held_back : Bool → ClientState → Bool
held_back required c = required && not c.authed
