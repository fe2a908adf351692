-- ===== src/Behavior/Peak.antt =====
-- The peak of the bitrates of a flow.
use ti_features.Double.{Double}
use ti_features.Window.{Window}
