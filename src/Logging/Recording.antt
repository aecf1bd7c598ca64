-- ===== src/Logging/Recording.antt =====
-- recorded.go: which log lines become events.
