-- ===== src/Failure/Runs.antt =====
-- Cases of tests/unit/ErrorHandlingTest.cpp.
use cpp17_client.Base.{◌≡◌, refl, [], false, some}
use cpp17_client.Failure.{HotRodClientException, server_error, is_transient}

abbrev timed_out : HotRodClientException
timed_out = record {
  phase = server_error;
  server_status = some 0x86;
  tried_nodes = [];
  owners_exhausted = false;
}

abbrev suspected : HotRodClientException
suspected = record timed_out { server_status = some 0x87 }

abbrev malformed : HotRodClientException
malformed = record timed_out { server_status = some 0x84 }

malformed_is_permanent : is_transient malformed ≡ false
unfolding is_transient
malformed_is_permanent = refl
