-- ===== src/Cli/Xray/View/Empty.antt =====
-- The viewer panics when an event without objects is selected.
