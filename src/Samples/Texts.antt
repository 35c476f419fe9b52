-- ===== src/Samples/Texts.antt =====
-- Binary strings and blobs at concrete inputs.
use myduckserver.Base.{◌≢◌}
use myduckserver.Binlog.Cell.{query_blob, query_json}

blob-no_json : query_blob ≢ query_json
blob-no_json e = cc
