-- ===== src/App/Ready.antt =====
-- escalation-proxy/app/main.py: when the proxy says that it is ready.
