-- ===== src/Server/Migrate.antt =====
-- MIGRATE: pkg/server/migrate.go, and its command in pkg/server/server.go.
use fast_and_accurate_store.Base.{
  Bool, false, Option, none, some, [], ◌∷◌, ◌++◌, Bytes, codes, ◌==◌, if◌then◌else◌,
}
use fast_and_accurate_store.Protocol.Command.{Command}
use fast_and_accurate_store.Protocol.Writer.{write_command}
use fast_and_accurate_store.Store.Types.{found, err_not_found, err_wrong_type}
use fast_and_accurate_store.Store.Ops
use fast_and_accurate_store.Server.State.{Server}
use fast_and_accurate_store.Server.Handler.{
  net_error, reply_line, World, not_found_text, wrong_type_text, first_two, Done, replied,
  wrong_args,
}

-- `len(line) > 0 && line[0] == '-'`
abbrev pub is_refusal : Bytes → Bool
is_refusal [] = false
is_refusal (c ∷ line) = c == b'-'

-- `migrateKey` behind the read of the value
unfoldable pub send_key : World → Bytes → Bytes → Bytes → Server → Server × Option Bytes
unfolding write_command Ops.delete
send_key w key value target s =
    elim (w.dial target (write_command (codes "SET" ∷ key ∷ value ∷ []))) [
      | net_error text ↦ (s, some text)
      | reply_line line ↦
          if is_refusal line
          then (s, some (codes "target error: " ++ line))
          else (record s { store = Ops.delete s.store key }, none)
    ]

-- `migrateKey`: the server, and the text of the error.
unfoldable pub migrate_key : World → Bytes → Bytes → Server → Server × Option Bytes
unfolding Ops.get_with_now send_key
migrate_key w key target s =
    let (result, store) = Ops.get_with_now w.others s.store key w.now in
    elim result [
      | found value ↦ send_key w key value target (record s { store = store })
      | err_not_found ↦ (record s { store = store }, some not_found_text)
      | err_wrong_type ↦ (record s { store = store }, some wrong_type_text)
    ]

unfoldable pub run_migrate : World → Command → Server → Option Done
unfolding migrate_key
run_migrate w cmd s = elim (first_two cmd.args) [
  | none ↦ replied s (wrong_args (codes "migrate"))
  | some (key, target) ↦
      let (s', error) = migrate_key w key target s in
      elim error [ none ↦ replied s' (codes "OK") | some text ↦ replied s' (codes "ERR " ++ text) ]
]
