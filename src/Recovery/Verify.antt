-- ===== src/Recovery/Verify.antt =====
-- `verify` and `dry_run` of src/recovery.rs: the manifest against the record, the archive and the
-- accounting.
use buyback.State.{PaymentRecord}
use buyback.Error.{Result, ok, ◌>>=◌, ◌>>◌}
use buyback.Keys.{Ss58}
use buyback.Recovery.{LegacyManifest, RecoveryReport}
use buyback.Recovery.Manifest.{validate_manifest}
use buyback.Recovery.Import.{replay}
use buyback.Recovery.Archive.{Archive, verify_legacy_archive}

-- `verify`
unfoldable pub verify :
    ⦃codec : Ss58⦄
    → Archive
    → PaymentRecord
    → LegacyManifest
    → Result (PaymentRecord × RecoveryReport)
verify archive r m = do
  validate_manifest r m
  summaries ← verify_legacy_archive archive r m
  replay r m summaries

-- `dry_run`
unfoldable pub dry_run :
    ⦃codec : Ss58⦄ → Archive → PaymentRecord → LegacyManifest → Result RecoveryReport
unfolding verify
dry_run archive r m = do (next, report) ← verify archive r m; ok report
