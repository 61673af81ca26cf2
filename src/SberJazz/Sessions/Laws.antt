-- ===== src/SberJazz/Sessions/Laws.antt =====
-- What a reconciliation comes over, counts and raises.
use second_capture.SberJazz.Sessions.Visits.{Visits}
