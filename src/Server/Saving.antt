-- ===== src/Server/Saving.antt =====
-- SAVE and BGSAVE: saveSnapshot and startBGSAVE in pkg/server/server.go.
use fast_and_accurate_store.Base.{
  true, false, Option, none, some, ◌++◌, Bytes, codes, if◌then◌else◌,
}
use fast_and_accurate_store.Store.Ops
use fast_and_accurate_store.Server.Config.{is_blank}
use fast_and_accurate_store.Server.State.{Server}
use fast_and_accurate_store.Server.Handler.{World, Done, replied}

-- `saveSnapshot`, where a path is set: the server, and the text of the error.
unfoldable pub save_snapshot : World → Server → Server × Option Bytes
unfolding Ops.snapshot_entries
save_snapshot w s = elim w.disk_error [
  | none ↦
      (record s { snapshot = some (Ops.snapshot_entries w.snapshot_order s.store w.now) }, none)
  | some text ↦ (s, some text)
]

abbrev pub no_path_text : Bytes
no_path_text = codes "ERR snapshot path not configured"

unfoldable pub run_save : World → Server → Option Done
unfolding save_snapshot
run_save w s =
    if is_blank s.config.rdb_path
    then replied s no_path_text
    else let (s', error) = save_snapshot w s in
      elim error [ none ↦ replied s' (codes "OK") | some text ↦ replied s' (codes "ERR " ++ text) ]

-- `startBGSAVE`, up to the start of the goroutine
unfoldable pub run_bgsave : Server → Option Done
run_bgsave s =
    if is_blank s.config.rdb_path
    then replied s no_path_text
    else if s.bg_saving
    then replied s (codes "ERR BGSAVE already in progress")
    else replied (record s { bg_saving = true }) (codes "Background saving started")

-- The goroutine of `startBGSAVE`
unfoldable pub end_bgsave : World → Server → Server
unfolding save_snapshot
end_bgsave w s = record ((save_snapshot w s).0) { bg_saving = false }
