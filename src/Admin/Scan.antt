-- ===== src/Admin/Scan.antt =====
-- The scan page, web/apps/admin/src/pages/ScanPage.tsx.
use mc_service.Prelude.{
  String, Option, none, some, Bool, true, false, if◌then◌else◌, str_eq, trimmed,
}
use mc_service.Prelude.Int.{ℤ, pos}
use mc_service.Platform.{Platform}
use mc_service.Session.State.{Server, Result, ok, raise, World}
use mc_service.Services.Types.{ScanResponse, IngestScanSummary, ServiceViews}
use mc_service.Services.Operations.{scan, ingest_scan}

pub record ScanPage : Type 0 where
  pub scan_path : String
  pub recursive : Bool
  pub force_reimport : Bool
  pub is_scanning : Bool
  pub scan_error : String
  pub scan_id : Option String
  pub files_found : ℤ
  pub is_ingesting : Bool
  pub ingest_error : String
  pub summary : Option IngestScanSummary

abbrev begin_scan : ScanPage → ScanPage
begin_scan p = record p {
  is_scanning = true;
  scan_error = "";
  scan_id = none;
  files_found = pos 0;
  summary = none;
  ingest_error = "";
}

unfoldable pub end_scan : Result ScanResponse → ScanPage → ScanPage
end_scan (ok result) p = record p {
  scan_id = some result.scan_id;
  files_found = result.files_found;
  is_scanning = false;
}
end_scan (raise e) p = record p {
  scan_error = "Scan failed. Use a server path like /library (Docker), then try again.";
  is_scanning = false;
}

abbrev begin_ingest : ScanPage → ScanPage
begin_ingest p = record p { is_ingesting = true; ingest_error = ""; summary = none }

-- Behind a bulk ingest the server has used up the scan's id.
unfoldable pub end_ingest : Result (Option IngestScanSummary) → ScanPage → ScanPage
end_ingest (ok result) p = record p { summary = result; scan_id = none; is_ingesting = false }
end_ingest (raise e) p = record p {
  ingest_error =
      "Bulk ingest failed. The scan may have expired (server restarted) — re-scan and try again.";
  is_ingesting = false;
}

module _ (views : ServiceViews) (browser : Platform) (server : Server) where
  unfoldable pub handle_scan : ScanPage → World → ScanPage × World
  unfolding end_scan
  handle_scan p w =
      let (r, w') =
        scan views browser server
          (record { path = trimmed p.scan_path; recursive = some p.recursive }) w in
      if str_eq (trimmed p.scan_path) "" then (p, w) else (end_scan r (begin_scan p), w')

  abbrev ingest_with : Option String → ScanPage → World → ScanPage × World
  ingest_with none p w = (p, w)
  ingest_with (some id) p w =
      let (r, w') = ingest_scan views browser server id (some p.force_reimport) w in
      if str_eq id "" then (p, w) else (end_ingest r (begin_ingest p), w')

  unfoldable pub handle_ingest_all : ScanPage → World → ScanPage × World
  unfolding end_ingest
  handle_ingest_all p w = ingest_with p.scan_id p w
